-- ===== src/Request/Merging.antt =====
-- The merging of consecutive messages in `validate_messages`, against the runs that it should join.
use rtxag.Prelude.{
  ◌≡◌, refl, ap, ◌∙◌, inl, inr, Bool, true, false, ◌&&◌, Option, none, some, List, [], ◌∷◌, ◌++◌,
  append-nil, append_assoc, arith, Bool-cases, All, concat, if◌then◌else◌,
}
use rtxag.Error.{ok}
use rtxag.Message.{
  Content, text, Message, user_message, assistant_message, role, content, same_role,
}
use rtxag.Request.{
  Merge, extend_message, merge_step, merge_messages, with_content, flush, is_plain, is_role,
}

-- Two messages that are one turn of the same speaker.
abbrev pub joinable : Message → Message → Bool
joinable m n = is_plain m && is_plain n && same_role (role n) (role m)

abbrev join_content : Option Content → Option Content → Option Content
join_content (some (text s)) (some (text t)) = some (text (concat (s ∷ "\n\n" ∷ t ∷ [])))
join_content c d = c

abbrev pub joined : Message → Message → Message
joined m n = with_content m (join_content (content m) (content n))

-- The specification: each run of one speaker becomes one message, its texts parted by blank lines.
unfoldable pub runs_from : Message → List Message → List Message
runs_from p [] = p ∷ []
runs_from p (m ∷ ms) =
    let longer = runs_from (joined p m) ms in
    let next = p ∷ runs_from m ms in if joinable p m then longer else next

unfoldable pub runs : List Message → List Message
unfolding runs_from
runs [] = []
runs (m ∷ ms) = runs_from m ms

abbrev pub IsText : Option Content → Type 0
IsText (some (text s)) = Unit
IsText _ = ⊥

-- A message that is merged has a text, not a list of parts.
abbrev pub HasText : Message → Type 0
HasText (user_message c) = IsText c
HasText (assistant_message c none) = IsText c
HasText _ = Unit

abbrev pub NotPlain : Message → Type 0
NotPlain m = is_plain m ≡ false

abbrev pub When : Bool → Type 0 → Type 0 → Type 0
When true A B = A
When false A B = B

-- Once a message that is not merged has followed one that is, no other is merged.
abbrev pub During : List Message → Type 0
During [] = Unit
During (m ∷ ms) = When (is_plain m) (During ms) (All NotPlain ms)

abbrev pub Settled : List Message → Type 0
Settled [] = Unit
Settled (m ∷ ms) = When (is_plain m) (During ms) (Settled ms)

runs_from-NotPlain : (p : Message) (ms : List Message) → NotPlain p → runs_from p ms ≡ p ∷ runs ms
unfolding runs
runs_from-NotPlain p [] h = refl
runs_from-NotPlain p (m ∷ ms) h = rw h

runs_of_NotPlain : (ms : List Message) → All NotPlain ms → runs ms ≡ ms
unfolding runs
runs_of_NotPlain [] h = refl
runs_of_NotPlain (m ∷ ms) (h, hs) =
    runs_from-NotPlain m ms h ∙ ap (λ l. m ∷ l) (runs_of_NotPlain ms hs)

-- The three ways that a round of the loop can go.
step_skip :
    (g : Merge) (m : Message)
    → NotPlain m
    → merge_step g m
      ≡ ok (record g {
        new_messages = (g.new_messages ++ flush g.merge_message) ++ m ∷ [];
        merge_message = none;
      })
unfolding merge_step
step_skip g m h = rw h

step_new :
    (g : Merge) (m : Message)
    → is_plain m ≡ true
    → is_role g.prev_role (role m) ≡ false
    → merge_step g m
      ≡ ok (record {
        prev_role = some (role m);
        new_messages = g.new_messages ++ flush g.merge_message;
        merge_message = some m;
      })
unfolding merge_step
step_new g m h k = rw h (rw k)

step_join :
    (g : Merge) (m p : Message)
    → is_plain m ≡ true
    → is_role g.prev_role (role m) ≡ true
    → extend_message g.merge_message m ≡ ok p
    → merge_step g m ≡ ok (record g { merge_message = some p })
unfolding merge_step
step_join g m p h k e = rw h (rw k (rw e))

merge_after :
    (g : Merge) (ms : List Message)
    → g.merge_message ≡ none
    → All NotPlain ms
    → merge_messages g ms ≡ ok (g.new_messages ++ ms)
unfolding merge_messages
merge_after g [] e h = rw e
merge_after g (m ∷ ms) e (h, hs) = rw (step_skip g m h) (
    rw e (
      merge_after
        (record g { new_messages = (g.new_messages ++ []) ++ m ∷ []; merge_message = none }) ms refl
        hs
      ∙ simp (append-nil, append_assoc)))

-- Joining two texts of one speaker is what `+=` does.
extend_joined :
    (p m : Message)
    → HasText p
    → HasText m
    → joinable p m ≡ true
    → (extend_message (some p) m ≡ ok (joined p m))
      × HasText (joined p m)
      × (role (joined p m) ≡ role p)
      × (is_plain (joined p m) ≡ true)
unfolding extend_message
extend_joined (user_message (some (text s))) (user_message (some (text t))) h k e =
    (refl, tt, refl, refl)
extend_joined (assistant_message (some (text s)) none) (assistant_message (some (text t)) none) h k
      e =
    (refl, tt, refl, refl)
extend_joined _ _ h k e = ground arith

merge-During :
    (g : Merge) (p : Message) (ms : List Message)
    → g.merge_message ≡ some p
    → g.prev_role ≡ some (role p)
    → is_plain p ≡ true
    → HasText p
    → All HasText ms
    → During ms
    → merge_messages g ms ≡ ok (g.new_messages ++ runs_from p ms)
unfolding merge_messages runs_from
merge-During g p [] e f h t ts d = rw e
merge-During g p (m ∷ ms) e f h t (tm, ts) d = elim (Bool-cases (is_plain m)) [
  | inl plain ↦ elim (Bool-cases (same_role (role m) (role p))) [
    | inl s ↦
        let j : joinable p m ≡ true = ground arith in
        let (x, t', r, h') = extend_joined p m t tm j in
        rw (step_join g m (joined p m) plain (rw f s) (rw e x)) (
          rw j (
            merge-During (record g { merge_message = some (joined p m) }) (joined p m) ms refl
              (rw r f) h' t' ts (rw plain at d)))
    | inr n ↦
        let j : joinable p m ≡ false = ground arith in
        rw (step_new g m plain (rw f n)) (
          rw j (
            rw e (
              merge-During
                (record {
                  prev_role = some (role m);
                  new_messages = g.new_messages ++ p ∷ [];
                  merge_message = some m;
                })
                m ms refl refl plain tm ts (rw plain at d)
              ∙ simp append_assoc)))
  ]
  | inr stop ↦
      let j : joinable p m ≡ false = ground arith in
      rw (step_skip g m stop) (
        rw j (
          rw e (
            merge_after
              (record g {
                new_messages = (g.new_messages ++ p ∷ []) ++ m ∷ [];
                merge_message = none;
              })
              ms refl (rw stop at d)
            ∙ simp
                (append_assoc, runs_from-NotPlain m ms stop, runs_of_NotPlain ms (rw stop at d)))))
]

pub merge_before :
    (g : Merge) (ms : List Message)
    → g.merge_message ≡ none
    → g.prev_role ≡ none
    → All HasText ms
    → Settled ms
    → merge_messages g ms ≡ ok (g.new_messages ++ runs ms)
unfolding merge_messages runs
merge_before g [] e f ts d = rw e
merge_before g (m ∷ ms) e f (tm, ts) d = elim (Bool-cases (is_plain m)) [
  | inl plain ↦ rw (step_new g m plain (rw f)) (
      rw e (
        merge-During
          (record {
            prev_role = some (role m);
            new_messages = g.new_messages ++ [];
            merge_message = some m;
          })
          m ms refl refl plain tm ts (rw plain at d)
        ∙ simp append-nil))
  | inr stop ↦ rw (step_skip g m stop) (
      rw e (
        merge_before
          (record g { new_messages = (g.new_messages ++ []) ++ m ∷ []; merge_message = none }) ms
          refl f ts (rw stop at d)
        ∙ simp (append-nil, append_assoc, runs_from-NotPlain m ms stop)))
]
