-- ===== src/Metrics/Daemon/Collected.antt =====
-- What one round of a target stores.
use k4e_device_worker.Prelude.{
  ◌≡◌, refl, ap, ◌∙◌, Bool, true, false, not, ◌||◌, Option, none, some, List, [], ◌∷◌, String, Map,
  get, has, if◌then◌else◌, text_key, arith, Bool-cases, inl, inr, has-put, contains, put,
}
use k4e_device_worker.Metrics.Allowed.{
  SampleFilter, Scraped, metric_name, filter_allowed, filter, allowed_names,
  new_restrictive_allow_list,
}
use k4e_device_worker.Metrics.Daemon.{
  Env, Round, collected, panicked, TargetMetric, kept, and_collected, run_scrapers, stored,
  get_data,
}

allowed_names-has :
    (names : List String) (m : Map String (Unit {0})) (n : String)
    → has (allowed_names names m) n ≡ (contains n names || has m n)
unfolding allowed_names
allowed_names-has [] m n = refl
allowed_names-has (a ∷ rest) m n =
    allowed_names-has rest (put m a tt) n ∙ ground (arith, has-put m a n tt)

allowed_names_only :
    (names : List String) (n : String) → has (allowed_names names []) n ≡ contains n names
unfolding has get
allowed_names_only names n = allowed_names-has names [] n ∙ ground arith

-- The samples whose names are in a list, in their order.
abbrev pub named : {F : Type 0} → List String → List (Scraped F) → List (Scraped F)
named names [] = []
named names (s ∷ rest) =
    let later = named names rest in if contains (metric_name s) names then s ∷ later else later

filter_allowed-named :
    {F : Type 0} (m : Map String (Unit {0})) (names : List String) (samples : List (Scraped F))
    → ((n : String) → has m n ≡ contains n names)
    → filter_allowed m samples ≡ named names samples
unfolding filter_allowed
filter_allowed-named m names [] same = refl
filter_allowed-named m names (s ∷ rest) same =
    ap (λ b. if b then s ∷ filter_allowed m rest else filter_allowed m rest) (same (metric_name s))
    ∙ ap (λ l. if contains (metric_name s) names then s ∷ l else l)
        (filter_allowed-named m names rest same)

-- An allow list keeps exactly the samples whose names it has, in their order.
pub new_restrictive_allow_list-named :
    {F : Type 0} (names : List String) (samples : List (Scraped F))
    → filter (new_restrictive_allow_list (some names)) samples ≡ named names samples
unfolding new_restrictive_allow_list filter
new_restrictive_allow_list-named names samples =
    filter_allowed-named (allowed_names names []) names samples (allowed_names_only names)

module _ {W F : Type 0} (env : Env W F) where
  -- There is an address for which no scraper could be made.
  abbrev pub has_bad : List String → Bool
  has_bad [] = false
  has_bad (url ∷ rest) = not (env.make_scraper url) || has_bad rest

  abbrev pub is_panic : Round W F → Bool
  is_panic (collected samples w) = false
  is_panic (panicked w) = true

  and_collected-is_panic :
      (first : List (Scraped F)) (r : Round W F) → is_panic (and_collected env first r) ≡ is_panic r
  unfolding and_collected
  and_collected-is_panic first (collected samples w) = refl
  and_collected-is_panic first (panicked w) = refl

  run_scrapers-is_panic :
      (allow_list : SampleFilter) (urls : List String) (w : W)
      → is_panic (run_scrapers env allow_list urls w) ≡ has_bad urls
  unfolding run_scrapers
  run_scrapers-is_panic allow_list [] w = refl
  run_scrapers-is_panic allow_list (url ∷ rest) w =
      let (r, w') = env.scrape url w in
      elim (Bool-cases (env.make_scraper url)) [
        | inl made ↦ rw made (
            and_collected-is_panic (kept env allow_list r) (run_scrapers env allow_list rest w')
            ∙ run_scrapers-is_panic allow_list rest w')
        | inr bad ↦ rw bad refl
      ]

  abbrev pub is_none : Option Bool → Bool
  is_none none = true
  is_none (some b) = false

  stored-is_none : (t : TargetMetric) (r : Round W F) → is_none (stored env t r).0 ≡ is_panic r
  unfolding stored
  stored-is_none t (collected samples w) = refl
  stored-is_none t (panicked w) = refl

  -- A round of a target panics exactly if there is an address among the target's for which no
  -- scraper could be made, whatever the requests come back with.
  pub get_data-has_bad : (t : TargetMetric) (w : W) → is_none (get_data env t w).0 ≡ has_bad t.urls
  unfolding get_data
  get_data-has_bad t w =
      stored-is_none t (run_scrapers env t.allow_list t.urls w)
      ∙ run_scrapers-is_panic t.allow_list t.urls w
