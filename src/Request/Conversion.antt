-- ===== src/Request/Conversion.antt =====
-- What `_convert_message` and `validate_message` make of the dictionaries of a request.
use rtxag.Prelude.{
  String, ◌≡◌, ◌↔◌, inl, inr, Bool, true, false, ◌||◌, ◌&&◌, Option, none, some, List, arith,
  Bool-cases, eq_iff,
}
use rtxag.Error.{ok}
use rtxag.Message.{
  Message, FunctionCall, system_message, user_message, assistant_message, function_message, role,
  role_name, content, has_content, has_calls,
}
use rtxag.Request.{MessageData, build_message, role_text, is_assistant_role, convert_message}

-- message.function_calls
abbrev pub calls : Message → Option (List FunctionCall)
calls (assistant_message c fs) = fs
calls _ = none

-- A message says something: it has a content, or asks for function calls.
abbrev pub has_body : Message → Bool
has_body m = has_content (content m) || has_calls (calls m)

abbrev Faithful : MessageData → Message → Type 0
Faithful d m = (role_text d.role ≡ role_name (role m)) × (content m ≡ d.content)

build_message-Faithful :
    (d : MessageData) (r : String) (m : Message)
    → build_message d r ≡ ok (some m)
    → (r ≡ role_name (role m)) × (content m ≡ d.content)
build_message-Faithful d r (system_message c) h = ground (arith, eq_iff r "system")
build_message-Faithful d r (user_message c) h = ground (arith, eq_iff r "user")
build_message-Faithful d r (assistant_message c fs) h = ground (arith, eq_iff r "assistant")
build_message-Faithful d r (function_message c i) h = ground (arith, eq_iff r "function")

build_message-calls :
    (d : MessageData) (m : Message)
    → build_message d "assistant" ≡ ok (some m)
    → calls m ≡ d.function_calls
build_message-calls d m h = ground arith

assistant_role : (o : Option String) → is_assistant_role o ≡ true → role_text o ≡ "assistant"
assistant_role none h = cc
assistant_role (some r) h = (eq_iff r "assistant").0 h

-- A dictionary that is kept becomes a message of the role that it names, with its content, and the
-- message says something: it has a content or asks for function calls.
pub convert_message-Faithful :
    (d : MessageData) (m : Message)
    → convert_message d ≡ ok (some m)
    → (role_text d.role ≡ role_name (role m)) × (content m ≡ d.content) × (has_body m ≡ true)
unfolding convert_message
convert_message-Faithful d m h =
    elim (Bool-cases (is_assistant_role d.role && has_calls d.function_calls)) [
      | inl e ↦
          let (r, c) = build_message-Faithful d (role_text d.role) m (rw e at h) in
          let named = assistant_role d.role (ground arith) in
          (r, c, ground (arith, build_message-calls d m (rw (named) at (rw e at h))))
      | inr n ↦ elim (Bool-cases (has_content d.content)) [
        | inl e ↦
            let (r, c) = build_message-Faithful d (role_text d.role) m (rw (n, e) at h) in
            (r, c, ground arith)
        | inr k ↦ cc (rw (n, k) at h)
      ]
    ]

-- The dictionaries are dropped exactly where they say nothing.
pub convert_message-drops :
    (d : MessageData)
    → (convert_message d ≡ ok none) ↔ (
        (has_content d.content || (is_assistant_role d.role && has_calls d.function_calls)) ≡ false)
unfolding convert_message
convert_message-drops d = (λ h. ground arith, λ h. ground arith)
