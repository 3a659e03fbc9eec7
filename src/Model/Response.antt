-- ===== src/Model/Response.antt =====
-- Which responses of a provider become a completion, and what the completion says.
use rtxag.Prelude.{
  ℕ, suc, String, ◌≡◌, ◌↔◌, ◌⊎◌, inl, inr, refl, sym, ap, ◌∙◌, true, false, Option, none, some,
  List, [], ◌∷◌, nonempty, is_empty, arith, Bool-cases,
}
use rtxag.Error.{Result, ok, ok-bind}
use rtxag.Json.{Json}
use rtxag.Message.{
  assistant_message, text, FunctionCall, FinishReason, function_calls, ChatCompletion,
}
use rtxag.Model.{
  ChatModel, calls_response, text_response, from_content, prepare_response, handle_response,
  complete_from, core_or_raise, completed,
}
use rtxag.FunctionCall.Building.{
  CallsContent, Services, build_calls, build_function_call, item_if_any,
}

-- A completion that holds this text, or else at least one function call.
abbrev pub Answers : Option String → ChatCompletion → Type 0
Answers o r =
    ((t : String) × (o ≡ some t)
      × (nonempty t ≡ true)
      × (r.message ≡ assistant_message (some (text t)) none))
    ⊎ ((calls : List FunctionCall) × (is_empty calls ≡ false)
        × (r.message ≡ assistant_message none (some calls))
        × (r.finish_reason ≡ function_calls))

handle_response_lem :
    (svc : Services) (status : ℕ) (body : String)
    → (handle_response svc status body ≡ ok tt) ↔ (status ≡ 200)
unfolding handle_response
handle_response_lem svc status body = ground arith

module _ (svc : Services) where
  text_response-Answers :
      (reason : FinishReason) (o : Option String) (n : ℕ) (r : ChatCompletion)
      → text_response svc reason o n ≡ ok r
      → Answers o r
  text_response-Answers reason none n r h = cc h
  text_response-Answers reason (some t) n r h = elim (Bool-cases (nonempty t)) [
    | inl k ↦
        let e : completed svc reason (assistant_message (some (text t)) none) n ≡ r =
          cc (rw k at h) in
        inl (t, refl, k, ap (λ x. x.message) (sym e))
    | inr k ↦ cc (rw k at h)
  ]

  built_length :
      (c : CallsContent) (i : ℕ) (names : List String) (calls : List FunctionCall)
      → build_calls svc c i names ≡ ok calls
      → is_empty calls ≡ is_empty names
  unfolding build_calls
  built_length c i [] calls h = let e : [] ≡ calls = cc h in rw (← e) refl
  built_length c i (name ∷ rest) calls h =
      let (s, _, h₁) = ok-bind _ (item_if_any svc i c.arguments_strs) h in
      let (d, _, h₂) = ok-bind _ (item_if_any svc i c.arguments_dicts) h₁ in
      let (call, _, h₃) = ok-bind _ (build_function_call svc i name s d) h₂ in
      let (later, _, h₄) = ok-bind _ (build_calls svc c (suc i) rest) h₃ in
      let e : call ∷ later ≡ calls = cc h₄ in rw (← e) refl

  calls_response-Answers :
      (calls : List FunctionCall) (o : Option String) (n : ℕ) (r : ChatCompletion)
      → is_empty calls ≡ false
      → calls_response svc calls n ≡ ok r
      → Answers o r
  calls_response-Answers calls o n r h q =
      let e : completed svc function_calls (assistant_message none (some calls)) n ≡ r = cc q in
      inr (calls, h, ap (λ x. x.message) (sym e), ap (λ x. x.finish_reason) (sym e))

  from_content-Answers :
      (reason : FinishReason) (o : Option String) (c : Option CallsContent) (n : ℕ)
      (r : ChatCompletion)
      → from_content svc reason o c n ≡ ok r
      → Answers o r
  from_content-Answers reason o none n r h = text_response-Answers reason o n r h
  from_content-Answers reason o (some c) n r h = elim (Bool-cases (is_empty c.names)) [
    | inl k ↦ text_response-Answers reason o n r (rw k at h)
    | inr k ↦
        let (calls, built, h') =
          ok-bind (λ calls. calls_response svc calls n) (build_calls svc c 0 c.names) (rw k at h) in
        calls_response-Answers calls o n r (built_length c 0 c.names calls built ∙ k) h'
  ]

  pub prepare_response-Answers :
      (reason : FinishReason) (o : Option String) (c : Option CallsContent)
      (calls : Option (List FunctionCall)) (n : ℕ) (r : ChatCompletion)
      → prepare_response svc reason o c calls n ≡ ok r
      → Answers o r
  unfolding prepare_response
  prepare_response-Answers reason o c none n r h = from_content-Answers reason o c n r h
  prepare_response-Answers reason o c (some []) n r h = from_content-Answers reason o c n r h
  prepare_response-Answers reason o c (some (x ∷ xs)) n r h =
      calls_response-Answers (x ∷ xs) o n r refl h

  -- A provider's response becomes a completion only if its status is 200 and the model finds the
  -- message in it; the completion holds the text that the model extracts, which is not empty, or
  -- else at least one function call, and then its finish reason says so.
  pub complete_from-Answers :
      (m : ChatModel) (n status : ℕ) (body : String) (json : Result Json) (r : ChatCompletion)
      → complete_from svc m n status body json ≡ ok r
      → (status ≡ 200)
        × ((result : Json) × (core : Json) × (content : Option String) × (json ≡ ok result)
            × (m.extract_core_data result ≡ ok (some core))
            × (m.extract_text_content core ≡ ok content)
            × Answers content r)
  unfolding complete_from
  complete_from-Answers m n status body json r h =
      let (_, good, h₁) = ok-bind _ (handle_response svc status body) h in
      let (result, j, h₂) = ok-bind _ json h₁ in
      let (found, f, h₃) = ok-bind _ (m.extract_core_data result) h₂ in
      let (core, k, h₄) = ok-bind _ (core_or_raise svc body found) h₃ in
      let (content, t, h₅) = ok-bind _ (m.extract_text_content core) h₄ in
      let (calls, _, h₆) = ok-bind _ (m.extract_function_calls core) h₅ in
      let (reason, _, h₇) = ok-bind _ (m.extract_finish_reason core) h₆ in
      (
        (handle_response_lem svc status body).0 good,
        (
          result,
          core,
          content,
          j,
          f ∙ ap ok (the_core body found core k),
          t,
          prepare_response-Answers reason content none calls n r h₇,
        ),
      )
    where
      the_core :
          (body : String) (o : Option Json) (core : Json)
          → core_or_raise svc body o ≡ ok core
          → o ≡ some core
      the_core body none core q = cc q
      the_core body (some v) core q = cc q
