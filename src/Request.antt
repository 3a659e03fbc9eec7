-- ===== src/Request.antt =====
-- codebase/llmhub/app/routes/chat_completion/schema.py: the validators of `ChatCompletionRequest`
-- on its messages. A message comes in as a dictionary, of which the code reads four keys; that the
-- values under them have the declared types is pydantic's check.
pub mod Calls
pub mod Merging
pub mod Conversion
pub mod Validation
pub mod Turns
mod Tests
use Prim.Native.String as Text
use rtxag.Prelude.{
  String, Bool, true, false, Option, none, some, List, [], ◌∷◌, ◌++◌, map, not, ◌&&◌, ◌==◌, concat,
  contains, is_empty, keep, length, ltb, eqb, if◌then◌else◌,
}
use rtxag.Error.{Result, ok, err, raised, Kind, ◌>>=◌, ◌>>◌, traverse}
use rtxag.Message.{
  Role, Part, letter, Content, text, parts, FunctionCall, Message, system_message, user_message,
  assistant_message, function_message, role, content, has_content, has_calls, same_role,
  is_assistant_function_calls_message,
}

pub record MessageData : Type 0 where
  pub role : Option String
  pub content : Option Content
  pub function_calls : Option (List FunctionCall)
  pub id : Option String

abbrev pub value_error {ℓ} : {A : Type ℓ} → String → Result A
value_error s = err (raised Kind.value_error s)

-- `ChatCompletionFunctionMessage(**message_data)`: its `id` is required.
abbrev build_function_message : Option Content → Option String → Result (Option Message)
build_function_message c none = err (raised Kind.validation_error "id: Field required")
build_function_message c (some i) = ok (some (function_message c i))

-- The class that a role names; `shown` is the role as the message prints it.
abbrev build_message : MessageData → String → Result (Option Message)
build_message m r =
    if r == "system"
    then ok (some (system_message m.content))
    else if r == "user"
    then ok (some (user_message m.content))
    else if r == "assistant"
    then ok (some (assistant_message m.content m.function_calls))
    else if r == "function"
    then build_function_message m.content m.id
    else value_error (concat ("invalid message role: " ∷ r ∷ []))

abbrev role_text : Option String → String
role_text none = "None"
role_text (some r) = r

abbrev is_assistant_role : Option String → Bool
is_assistant_role none = false
is_assistant_role (some r) = r == "assistant"

-- `_convert_message`: `none` where the message is empty and is dropped.
unfoldable pub convert_message : MessageData → Result (Option Message)
convert_message m =
    if is_assistant_role m.role && has_calls m.function_calls
    then build_message m (role_text m.role)
    else if has_content m.content
    then build_message m (role_text m.role)
    else ok none

abbrev pub present : List (Option Message) → List Message
present [] = []
present (none ∷ ms) = present ms
present (some m ∷ ms) = m ∷ present ms

-- `validate_message`
unfoldable pub validate_message : List MessageData → Result (List Message)
unfolding convert_message traverse
validate_message messages = do ms ← traverse convert_message messages; ok (present ms)

-- The two collections of the loop over the messages.
pub record Scan : Type 0 where
  pub function_calls_ids : List String
  pub functions_ids : List String

abbrev pub unmatched : Scan → List String
unmatched s = keep (λ i. not (contains i s.functions_ids)) s.function_calls_ids

abbrev pub call_ids : List FunctionCall → List String
call_ids calls = map (λ c. c.id) calls

-- One round of the loop.
unfoldable pub scan_message : Scan → Message → Result Scan
scan_message s (system_message c) = ok s
scan_message s (user_message c) =
    if is_empty s.function_calls_ids
    then ok s
    else value_error
        "user and assistant roles are not allowed after function role until all function_calls have corresponding functions."
scan_message s (assistant_message c none) =
    if is_empty s.function_calls_ids
    then ok s
    else value_error
        "user and assistant roles are not allowed after function role until all function_calls have corresponding functions."
scan_message s (assistant_message c (some calls)) =
    if is_empty (unmatched s)
    then ok (record s { function_calls_ids = s.function_calls_ids ++ call_ids calls })
    else value_error
        "Function_calls do not have a corresponding function message before the next function_call."
scan_message s (function_message c i) =
    if contains i s.functions_ids
    then value_error (concat ("function with id " ∷ i ∷ " appears more than once." ∷ []))
    else if contains i s.function_calls_ids
    then ok (record s { functions_ids = i ∷ s.functions_ids })
    else value_error (
        concat
          ("function message with id " ∷ i ∷ " appears without a preceding function_call." ∷ []))

unfoldable pub scan_messages : Scan → List Message → Result Scan
scan_messages s [] = ok s
scan_messages s (m ∷ ms) = do s' ← scan_message s m; scan_messages s' ms

abbrev pub no_ids : Scan
no_ids = record { function_calls_ids = []; functions_ids = [] }

-- The variables of the merging loop.
pub record Merge : Type 0 where
  pub prev_role : Option Role
  pub new_messages : List Message
  pub merge_message : Option Message

-- `merge_message.content = c`
abbrev pub with_content : Message → Option Content → Message
with_content (system_message _) c = system_message c
with_content (user_message _) c = user_message c
with_content (assistant_message _ calls) c = assistant_message c calls
with_content (function_message _ i) c = function_message c i

abbrev pub letters : String → List Part
letters Text.[] = []
letters (Text.◌∷◌ c s) = letter c ∷ letters s

-- `old += "\n\n" + new`
unfoldable pub add_content : Option Content → Option Content → Result Content
add_content old none =
    err (raised Kind.type_error "can only concatenate str (not \"NoneType\") to str")
add_content old (some (parts ps)) =
    err (raised Kind.type_error "can only concatenate str (not \"list\") to str")
add_content none (some (text t)) = err (raised Kind.type_error "unsupported operand type(s) for +=")
add_content (some (text s)) (some (text t)) = ok (text (concat (s ∷ "\n\n" ∷ t ∷ [])))
add_content (some (parts ps)) (some (text t)) =
    ok (parts (ps ++ letters (concat ("\n\n" ∷ t ∷ []))))

-- `merge_message.content += "\n\n" + msg.content`
unfoldable pub extend_message : Option Message → Message → Result Message
unfolding add_content
extend_message none msg =
    err (raised Kind.attribute_error "'NoneType' object has no attribute 'content'")
extend_message (some m) msg = do
  c ← add_content (content m) (content msg)
  ok (with_content m (some c))

abbrev pub flush : Option Message → List Message
flush none = []
flush (some m) = m ∷ []

-- The messages that are merged: those of the user, and the assistant's without function calls.
abbrev pub is_plain : Message → Bool
is_plain (user_message c) = true
is_plain (assistant_message c none) = true
is_plain _ = false

abbrev pub is_role : Option Role → Role → Bool
is_role none r = false
is_role (some p) r = same_role r p

-- One round of the merging loop. Beside a message that is not merged, `prev_role` stays.
unfoldable pub merge_step : Merge → Message → Result Merge
unfolding extend_message
merge_step g m =
    if is_plain m
    then (if is_role g.prev_role (role m)
        then (do
          merged ← extend_message g.merge_message m
          ok (record g { merge_message = some merged }))
        else ok (record {
          prev_role = some (role m);
          new_messages = g.new_messages ++ flush g.merge_message;
          merge_message = some m;
        }))
    else ok (record g {
      new_messages = (g.new_messages ++ flush g.merge_message) ++ m ∷ [];
      merge_message = none;
    })

unfoldable pub merge_messages : Merge → List Message → Result (List Message)
unfolding merge_step
merge_messages g [] = ok (g.new_messages ++ flush g.merge_message)
merge_messages g (m ∷ ms) = do g' ← merge_step g m; merge_messages g' ms

abbrev pub start_merge : Merge
start_merge = record { prev_role = none; new_messages = []; merge_message = none }

abbrev pub is_system : Message → Bool
is_system (system_message c) = true
is_system _ = false

abbrev pub first_is_system : List Message → Bool
first_is_system [] = false
first_is_system (m ∷ ms) = is_system m

-- The checks that stand before the loops.
unfoldable pub check_system : List Message → Result (Unit {0})
check_system messages =
    let system_count = length (keep is_system messages) in
    if is_empty messages
    then value_error "messages cannot be empty."
    else if ltb 1 system_count
    then value_error "more than one system message found."
    else if eqb system_count 1 && not (first_is_system messages)
    then value_error "system message is not at the first position."
    else ok tt

-- The check that stands between the loops.
unfoldable pub check_matched : Scan → Result (Unit {0})
check_matched s =
    if is_empty (unmatched s)
    then ok tt
    else value_error "Function_calls do not have a corresponding function message."

-- `validate_messages`
unfoldable pub validate_messages : List Message → Result (List Message)
unfolding check_system scan_messages scan_message check_matched merge_messages
validate_messages messages = do
  check_system messages
  s ← scan_messages no_ids messages
  check_matched s
  merge_messages start_merge messages

-- `has_multimodal_user_message`
abbrev pub has_multimodal_user_message : List Message → Bool
has_multimodal_user_message [] = false
has_multimodal_user_message (user_message (some (parts ps)) ∷ ms) = true
has_multimodal_user_message (m ∷ ms) = has_multimodal_user_message ms
