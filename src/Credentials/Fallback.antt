-- ===== src/Credentials/Fallback.antt =====
-- Encrypted credentials where the models of a request are of several providers.
use rtxag.Prelude.{
  ℕ, zero, suc, ◌+◌, String, ◌≡◌, refl, ◌∙◌, ◌⊎◌, inl, inr, Bool, true, false, Option, none, some,
  List, [], ◌∷◌, concat, contains, Dict, get, put, get-put, arith, Bool-cases, All, ◌==◌,
}
use rtxag.Prelude.Text.{has_char}
use rtxag.Error.{Exception, Result, ok, err, ◌>>=◌, http_error, request_validation_error}
use rtxag.Schema.{ModelInfo, bad_request}
use rtxag.Credentials.{
  CipherSuite, Values, ProviderFields, suffix, is_present, item, load_field, load_set_from_input,
  more_sets, unless_raised, choose_set, load_from, load_input, pick, assign_all, decrypt,
  decrypt_value,
}
use rtxag.Credentials.Sets.{bind_raises}
use rtxag.Credentials.Validate.{Sources, filled, entries, as_invalid, on_loaded, load_for}

-- A set of a provider has no value under a name that is not allowed.
load_set_get :
    (required : List String) (credentials : Dict String) (suffixed k : String)
    (fields : List String) (set : Values)
    → contains k fields ≡ false
    → load_set_from_input required credentials suffixed fields ≡ ok set
    → get k set ≡ none
unfolding load_set_from_input get
load_set_get required credentials suffixed k [] set c h = let e : [] ≡ set = cc in rw (← e) refl
load_set_get required credentials suffixed k (f ∷ fields) set c h =
    field_get (is_present (get f credentials)) (item (concat (f ∷ suffixed ∷ [])) credentials)
      (contains f required) (load_set_from_input required credentials suffixed fields)
      (ground arith)
      (λ vs q. load_set_get required credentials suffixed k fields vs (ground arith) q) h
  where
    field_get :
        (b : Bool) (found : Result String) (r : Bool) (later : Result Values)
        → (f == k) ≡ false
        → ((vs : Values) → later ≡ ok vs → get k vs ≡ none)
        → load_field f b found r later ≡ ok set
        → get k set ≡ none
    field_get true (ok v) r (ok vs) n ih q =
        let e : (f, some v) ∷ vs ≡ set = cc in rw (← e) (rw n (ih vs refl))
    field_get true (ok v) r (err x) n ih q = cc q
    field_get true (err x) r later n ih q = cc q
    field_get false found true later n ih q = cc q
    field_get false found false later n ih q = ih set q

get-assign_all :
    (values set : Values) (k : String)
    → get k set ≡ none
    → get k (assign_all values set) ≡ get k values
unfolding assign_all get
get-assign_all values [] k h = refl
get-assign_all values ((j, v) ∷ set) k h = elim (Bool-cases (j == k)) [
  | inl e ↦ cc (rw e at h)
  | inr n ↦ get-assign_all (put j v values) set k (rw n at h) ∙ get-put j k v values ∙ rw n
]

-- If no set that a count loads has a value under a name, no set that the search collects has.
collected :
    (load : ℕ → Result Values) (k : String)
    → ((n : ℕ) (set : Values) → load n ≡ ok set → get k set ≡ none)
    → (fuel count : ℕ) (sets : List Values) → more_sets load fuel count ≡ some sets
    → All (λ set. get k set ≡ none) sets
unfolding more_sets
collected load k each zero count sets h = cc h
collected load k each (suc fuel) count sets h =
    step (load count) refl (more_sets load fuel (count + 1))
      (λ more p. collected load k each fuel (count + 1) more p) h
  where
    step :
        (r : Result Values)
        → load count ≡ r
        → (rest : Option (List Values))
        → ((more : List Values) → rest ≡ some more → All (λ set. get k set ≡ none) more)
        → unless_raised r rest ≡ some sets
        → All (λ set. get k set ≡ none) sets
    step (err e) q rest p h = let e' : [] ≡ sets = cc in rw (← e') tt
    step (ok set) q none p h = cc h
    step (ok set) q (some more) p h =
        let e' : set ∷ more ≡ sets = cc in rw (← e') (each count set q, p more refl)

picked :
    (k : String) (first : Values) (sets : List Values) (drawn : ℕ)
    → get k first ≡ none
    → All (λ set. get k set ≡ none) sets
    → get k (pick first sets drawn) ≡ none
picked k first [] drawn h hs = h
picked k first (s ∷ rest) zero h hs = h
picked k first (s ∷ rest) (suc n) h (g, hs) = picked k s rest n g hs

load_from-get :
    (first : Result Values) (load : ℕ → Result Values) (fuel drawn : ℕ) (values loaded : Values)
    (k : String)
    → ((set : Values) → first ≡ ok set → get k set ≡ none)
    → ((n : ℕ) (set : Values) → load n ≡ ok set → get k set ≡ none)
    → load_from first load fuel drawn values ≡ some (ok loaded)
    → get k loaded ≡ get k values
unfolding load_from
load_from-get (err x) load fuel drawn values loaded k a b h = cc h
load_from-get (ok set) load fuel drawn values loaded k a b h =
    chosen (more_sets load fuel 1) (collected load k b fuel 1) h
  where
    chosen :
        (o : Option (List Values))
        → ((sets : List Values) → o ≡ some sets → All (λ set. get k set ≡ none) sets)
        → choose_set set drawn values o ≡ some (ok loaded)
        → get k loaded ≡ get k values
    chosen none c q = cc q
    chosen (some sets) c q =
        let e : assign_all values (pick set sets drawn) ≡ loaded = cc in
        rw (← e) (
          get-assign_all values (pick set sets drawn) k
            (picked k set sets drawn (a set refl) (c sets refl)))

-- What was there under a name that the provider does not allow is there after the load.
load_input-get :
    (str : ℕ → String) (p : ProviderFields) (credentials : Dict String) (fuel drawn : ℕ)
    (values loaded : Values) (k : String)
    → contains k p.allowed ≡ false
    → load_input str p credentials fuel drawn values ≡ some (ok loaded)
    → get k loaded ≡ get k values
unfolding load_input
load_input-get str p credentials fuel drawn values loaded k c h =
    load_from-get (load_set_from_input p.required credentials "" p.allowed)
      (λ n. load_set_from_input p.required credentials (suffix str n) p.allowed) fuel drawn values
      loaded k (λ set q. load_set_get p.required credentials "" k p.allowed set c q)
      (λ n set q. load_set_get p.required credentials (suffix str n) k p.allowed set c q) h

-- A value that is no encrypted text makes `decrypt` raise.
decrypt_raises :
    (suite : CipherSuite) (values : Values) (k v : String)
    → get k values ≡ some (some v)
    → has_char b',' v ≡ false
    → (e : Exception) × (decrypt suite values ≡ err e)
unfolding decrypt get
decrypt_raises suite [] k v g h = cc g
decrypt_raises suite ((j, w) ∷ rest) k v g h = elim (Bool-cases (j == k)) [
  | inl e ↦
      let q : w ≡ some v = cc (rw e at g) in
      (
        http_error request_validation_error
            (concat ("invalid credentials. Not encrypted: " ∷ v ∷ [])),
        rw q (rw h),
      )
  | inr n ↦
      let (x, later) = decrypt_raises suite rest k v (rw n at g) h in
      bind_raises (decrypt_value suite j w)
        (λ plain. decrypt suite rest >>= λ rest'. ok ((j, some plain) ∷ rest')) x
        (λ plain. (x, rw later))
]

-- Encrypted credentials and models of several providers: where a value that an earlier model's
-- credentials left, decrypted and with no comma in it, is under a name that the next provider does
-- not allow, the load for the next model never succeeds: it is refused as invalid, or the search
-- for further sets does not end within the fuel.
pub encrypted_fallback_refused :
    (src : Sources) (encrypted : Option (Dict String)) (n : ℕ) (info : ModelInfo) (values : Values)
    (p : ProviderFields) (k v : String)
    → filled encrypted ≡ true
    → src.get_provider info.model_schema.provider_id ≡ some p
    → contains k p.allowed ≡ false
    → get k values ≡ some (some v)
    → has_char b',' v ≡ false
    → (load_for src none encrypted n info values ≡ none)
      ⊎ (load_for src none encrypted n info values
          ≡ some (bad_request "The encrypted credentials are invalid."))
unfolding load_for
encrypted_fallback_refused src encrypted n info values p k v f g c a h =
    rw f
      (rw g (loaded (load_input src.str p (entries encrypted) src.fuel (src.draws n) values) refl))
  where
    loaded :
        (o : Option (Result Values))
        → load_input src.str p (entries encrypted) src.fuel (src.draws n) values ≡ o
        → (on_loaded as_invalid (on_loaded (λ r. r >>= decrypt src.suite) o) ≡ none)
          ⊎ (on_loaded as_invalid (on_loaded (λ r. r >>= decrypt src.suite) o)
              ≡ some (bad_request "The encrypted credentials are invalid."))
    loaded none q = inl refl
    loaded (some (err e)) q = inr refl
    loaded (some (ok l)) q =
        let kept =
          load_input-get src.str p (entries encrypted) src.fuel (src.draws n) values l k c q in
        let (e, raises) = decrypt_raises src.suite l k v (kept ∙ a) h in inr (rw raises)
