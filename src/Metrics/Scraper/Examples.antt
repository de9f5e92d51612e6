-- ===== src/Metrics/Scraper/Examples.antt =====
-- Tests of the scraper (internal/metrics/scraper.go), and its theorem at an input.
use k4e_device_worker.Prelude.{◌≡◌, refl, ℕ, zero, suc, none, some, List, [], ◌∷◌, ok, err, arith}
use k4e_device_worker.Metrics.Scraper.{
  Env, HttpResponse, Decoded, end_of_file, broken, decoded, scrape,
}
use k4e_device_worker.Metrics.Scraper.Whole.{Reads, at_end, at_error, part, scrape_whole}

-- A body is a list of numbers, each of which is a part with one sample, and 0 cannot be decoded.
abbrev decode_number : List ℕ → Decoded ℕ (List ℕ)
decode_number [] = end_of_file
decode_number (zero ∷ rest) = broken "unexpected byte"
decode_number (suc n ∷ rest) = decoded (suc n ∷ []) rest

abbrev answer : List ℕ → HttpResponse (List ℕ)
answer numbers = record {
  status_code = 200;
  status = "200 OK";
  content_encoding = "";
  content_type = "text/plain";
  body = numbers;
}

abbrev target : Env (List ℕ) ℕ (List ℕ)
target = record {
  new_request = λ url. ok url;
  send = λ request w. (ok (answer w), w);
  unzip = λ b. err "not gzip";
  decode = λ format b. decode_number b;
}

read_both : Reads target "text/plain" 2 (3 ∷ 4 ∷ []) (3 ∷ 4 ∷ []) none
read_both = part refl (part refl (at_end refl))

read_broken : Reads target "text/plain" 1 (3 ∷ 0 ∷ []) (3 ∷ []) (some "unexpected byte")
read_broken = part refl (at_error refl)

scrape_whole_example :
    scrape target 3 "http://localhost:9100" (3 ∷ 4 ∷ []) ≡ (some (ok (3 ∷ 4 ∷ [])), 3 ∷ 4 ∷ [])
scrape_whole_example =
    scrape_whole target 3 "http://localhost:9100" (3 ∷ 4 ∷ []) (3 ∷ 4 ∷ []) (answer (3 ∷ 4 ∷ []))
      (3 ∷ 4 ∷ []) 2 (3 ∷ 4 ∷ []) none refl refl refl read_both (omega arith)

broken_scrape :
    scrape target 2 "http://localhost:9100" (3 ∷ 0 ∷ [])
    ≡ (some (err "unexpected byte"), 3 ∷ 0 ∷ [])
broken_scrape =
    scrape_whole target 2 "http://localhost:9100" (3 ∷ 0 ∷ []) (3 ∷ 0 ∷ []) (answer (3 ∷ 0 ∷ []))
      (3 ∷ 0 ∷ []) 1 (3 ∷ []) (some "unexpected byte") refl refl refl read_broken (omega arith)
