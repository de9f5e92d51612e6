-- ===== src/Metrics/Scraper/Whole.antt =====
-- A scrape ends, and gives all samples of the answer or none.
use k4e_device_worker.Prelude.{
  ◌≡◌, sym, ap, ◌∙◌, ℕ, zero, suc, ◌<◌, Option, none, some, List, [], ◌++◌, append_assoc,
  append-nil, String, text_key, number_key, Result, ok, err, Err, arith,
}
use k4e_device_worker.Metrics.Scraper.{
  Env, HttpResponse, end_of_file, broken, decoded, next_decoded, decode_all, reader_made,
  read_http_response, response_read, scrape, opened,
}

module _ {W S B : Type 0} (env : Env W S B) where
  -- The body decodes to the samples in as many parts, and then ends, or breaks with an error.
  pub data Reads (format : String) : ℕ → B → List S → Option Err → Type 0 where
    at_end : {b : B} → env.decode format b ≡ end_of_file → Reads format zero b [] none
    at_error : {b : B} {e : Err} → env.decode format b ≡ broken e → Reads format zero b [] (some e)
    part :
        {n : ℕ} {b rest : B} {samples later : List S} {e : Option Err}
        → env.decode format b ≡ decoded samples rest
        → Reads format n rest later e
        → Reads format (suc n) b (samples ++ later) e

  -- All samples, or the error
  abbrev pub all_or_error : List S → Option Err → Result (List S)
  all_or_error all none = ok all
  all_or_error all (some e) = err e

  all_or_error_assoc :
      (all samples later : List S) (e : Option Err)
      → all_or_error ((all ++ samples) ++ later) e ≡ all_or_error (all ++ (samples ++ later)) e
  all_or_error_assoc all samples later e =
      ap (λ l. all_or_error l e) (append_assoc all samples later)

  decode_all-Reads :
      (format : String) (n fuel : ℕ) (b : B) (all samples : List S) (e : Option Err)
      → n < fuel
      → Reads format n b samples e
      → decode_all env fuel format all b ≡ some (all_or_error (all ++ samples) e)
  unfolding decode_all next_decoded
  decode_all-Reads format n zero b all samples e enough reads = absurd (omega (arith, enough))
  decode_all-Reads format zero (suc m) b all samples e enough (at_end h) =
      ap (next_decoded env (decode_all env m format) all) h
      ∙ ap (λ l. some (ok l)) (sym (append-nil all))
  decode_all-Reads format zero (suc m) b all samples e enough (at_error h) =
      ap (next_decoded env (decode_all env m format) all) h
  decode_all-Reads format (suc k) (suc m) b all samples e enough
        (part {rest = rest} {samples = first} {later = later} h more) =
      ap (next_decoded env (decode_all env m format) all) h
      ∙ (decode_all-Reads format k m rest (all ++ first) later e (omega (arith, enough)) more
          ∙ ap (λ r. some r) (all_or_error_assoc all first later e))

  -- A scrape of an answer with the status 200 ends as soon as it is allowed one round more than the
  -- answer has parts. It gives the samples of all parts in their order if the body reads to its end,
  -- and none of them, but the error, if it breaks.
  pub scrape_whole :
      (fuel : ℕ) (request : String) (w v : W) (r : HttpResponse B) (b : B) (n : ℕ)
      (samples : List S) (e : Option Err)
      → env.send request w ≡ (ok r, v)
      → r.status_code ≡ 200
      → opened env r ≡ ok b
      → Reads r.content_type n b samples e
      → n < fuel
      → scrape env fuel request w ≡ (some (all_or_error samples e), v)
  unfolding scrape response_read read_http_response reader_made
  scrape_whole fuel request w v r b n samples e sent good unzipped reads enough =
      ap (λ x. response_read env fuel x) sent
      ∙ ap (λ (a : Option (Result (List S))). (a, v))
          (rw good (
            ap (λ x. reader_made env fuel r.content_type x) unzipped
            ∙ decode_all-Reads r.content_type n fuel b [] samples e enough reads))
