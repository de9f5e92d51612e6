-- ===== src/Metrics/Scraper.antt =====
-- The scraper of a target (internal/metrics/scraper.go). HTTP, gzip and the decoding of the samples
-- are parameters.
pub mod Whole
mod Examples
use k4e_device_worker.Prelude.{
  ℕ, zero, suc, Bool, true, false, Option, none, some, List, [], ◌∷◌, ◌++◌, String, if◌then◌else◌,
  ◌==◌, text_key, number_key, Result, ok, err, Err, ◌⧺◌,
}

-- An answer; a body is what is left to read of it.
pub record HttpResponse (B : Type 0) : Type 0 where
  pub status_code : ℕ
  pub status : String
  pub content_encoding : String
  pub content_type : String
  pub body : B

-- What `Decode` gives: `io.EOF`, another error, or samples and the rest of the body.
pub data Decoded (S B : Type 0) : Type 0 where
  end_of_file : Decoded S B
  broken : Err → Decoded S B
  decoded : List S → B → Decoded S B

pub record Env (W S B : Type 0) : Type 0 where
  pub new_request : String → Result String
  pub send : String → W → Result (HttpResponse B) × W
  pub unzip : B → Result B  -- `gzip.NewReader`
  pub decode : String → B → Decoded S B  -- of a content type

module _ {W S B : Type 0} (env : Env W S B) where
  -- The request, to which the headers are added
  unfoldable pub new_http_scraper : String → Result String
  new_http_scraper url = env.new_request url

  next_decoded :
      (List S → B → Option (Result (List S))) → List S → Decoded S B → Option (Result (List S))
  next_decoded more all end_of_file = some (ok all)
  next_decoded more all (broken e) = some (err e)
  next_decoded more all (decoded samples rest) = more (all ++ samples) rest

  -- The loop; `none` is out of fuel.
  unfoldable pub decode_all : ℕ → String → List S → B → Option (Result (List S))
  unfolding next_decoded
  decode_all zero format all body = none
  decode_all (suc fuel) format all body =
      next_decoded (decode_all fuel format) all (env.decode format body)

  reader_made : ℕ → String → Result B → Option (Result (List S))
  unfolding decode_all
  reader_made fuel format (err e) = some (err e)
  reader_made fuel format (ok body) = decode_all fuel format [] body

  -- the switch on the encoding of the content
  abbrev pub opened : HttpResponse B → Result B
  opened r = if r.content_encoding == "gzip" then env.unzip r.body else ok r.body

  read_http_response : ℕ → HttpResponse B → Option (Result (List S))
  unfolding reader_made
  read_http_response fuel r =
      if r.status_code == 200
      then reader_made fuel r.content_type (opened r)
      else some (err ("server returned HTTP status " ⧺ r.status))

  response_read : ℕ → Result (HttpResponse B) × W → Option (Result (List S)) × W
  unfolding read_http_response
  response_read fuel (err e, w) = (some (err e), w)
  response_read fuel (ok r, w) = (read_http_response fuel r, w)

  -- `Scrape` with the request of a scraper
  unfoldable pub scrape : ℕ → String → W → Option (Result (List S)) × W
  unfolding response_read
  scrape fuel request w = response_read fuel (env.send request w)
