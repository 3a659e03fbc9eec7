-- ===== src/Rerank/Documents.antt =====
-- The documents in the results of Cohere's adapter.
use rtxag.Prelude.{
  ℕ, zero, suc, ◌+◌, String, ◌≡◌, refl, ◌⊎◌, inl, inr, Bool, true, false, Option, none, some, List,
  [], ◌∷◌, All, length, arith, if◌then◌else◌,
}
use rtxag.Error.{Result, ok, ◌>>=◌, ok-bind}
use rtxag.Json.{Items, nil, cons}
use rtxag.Json.Int.{ℤ, pos, negsuc, leb_ℤ}
use rtxag.Json.Access.{item}
use rtxag.OpenAi.{as_index}
use rtxag.Vectors.{rows}
use rtxag.Vectors.Reading.{Client, answer_of}
use rtxag.Rerank.{
  RerankDocument, Query, nth, from_end, at, or_index_error, document_at, out_of_bounds,
  read_results, cohere_rerank, cohere_request,
}

-- The document of a result is the one of the request at the position that its index names, from the
-- front, or from the end if the index is negative.
abbrev pub IsFrom : {S : Type 0} → List String → RerankDocument S → Type 0
IsFrom documents r =
    (n : ℕ) × (nth documents n ≡ some r.document)
    × ((r.index ≡ pos n) ⊎ ((m : ℕ) × (r.index ≡ negsuc m) × (n + suc m ≡ length documents)))

from_end_lem :
    (ss : List String) (n left : ℕ) (s : String)
    → from_end ss n left ≡ some s
    → (k : ℕ) × (nth ss k ≡ some s) × (k + suc n ≡ left)
from_end_lem ss n zero s h = cc h
from_end_lem ss zero (suc left) s h = (left, h, omega arith)
from_end_lem ss (suc n) (suc left) s h =
    let (k, q, e) = from_end_lem ss n left s h in (k, q, omega (arith, e))

abbrev Named : List String → ℤ → String → Type 0
Named documents i s =
    (n : ℕ) × (nth documents n ≡ some s)
    × ((i ≡ pos n) ⊎ ((m : ℕ) × (i ≡ negsuc m) × (n + suc m ≡ length documents)))

at-Named :
    (documents : List String) (i : ℤ) (s : String) → at documents i ≡ some s → Named documents i s
at-Named documents (pos n) s h = (n, h, inl refl)
at-Named documents (negsuc m) s h =
    let (n, q, e) = from_end_lem documents m (length documents) s h in (n, q, inr (m, refl, e))

or_index_error_lem : (o : Option String) (s : String) → or_index_error o ≡ ok s → o ≡ some s
or_index_error_lem none s h = cc h
or_index_error_lem (some t) s h = cc h

module _ (client : Client) (show : ℤ → String) where
  open client use {Vector, vector_of, post}

  in_bounds :
      (b : Bool) (r : Result String) (i : ℤ) (documents : List String) (s : String)
      → (if b then out_of_bounds client show i documents else r) ≡ ok s
      → r ≡ ok s
  in_bounds true r i documents s h = cc h
  in_bounds false r i documents s h = h

  document_at_lem :
      (documents : List String) (i : ℤ) (s : String)
      → document_at client show documents i ≡ ok s
      → at documents i ≡ some s
  document_at_lem documents i s h = or_index_error_lem (at documents i) s (
      in_bounds (leb_ℤ (pos (length documents)) i) (or_index_error (at documents i)) i documents s
        h)

  read_results-IsFrom :
      (documents : List String) (vs : Items) (rs : List (RerankDocument Vector))
      → read_results client show documents vs ≡ ok rs
      → All (IsFrom documents) rs
  unfolding read_results
  read_results-IsFrom documents nil rs h = let e : [] ≡ rs = cc h in rw (← e) tt
  read_results-IsFrom documents (cons v vs) rs h =
      let (i, _, h₁) = ok-bind _ (item "index" v >>= as_index) h in
      let (s, d, h₂) = ok-bind _ (document_at client show documents i) h₁ in
      let (score, _, h₃) = ok-bind _ (item "relevance_score" v >>= vector_of) h₂ in
      let (rest, q, h₄) = ok-bind _ (read_results client show documents vs) h₃ in
      let e : record { index = i; document = s; relevance_score = score } ∷ rest ≡ rs = cc h₄ in
      rw (← e) (
        at-Named documents i s (document_at_lem documents i s d),
        read_results-IsFrom documents vs rest q,
      )

  -- When Cohere's adapter answers, the document of every result is that of the request to which the
  -- index points: from the front, or from the end if the provider sent a negative index.
  pub cohere_rerank-IsFrom :
      (q : Query) (rs : List (RerankDocument Vector))
      → cohere_rerank client show q ≡ ok rs
      → All (IsFrom q.documents) rs
  unfolding cohere_rerank
  cohere_rerank-IsFrom q rs h =
      let (json, _, h₁) = ok-bind _ (post (cohere_request q) >>= answer_of client) h in
      let (vs, _, h₂) = ok-bind _ (item "results" json >>= rows) h₁ in
      read_results-IsFrom q.documents vs rs h₂
