-- ===== src/Anthropic/Entries.antt =====
-- What a request to Anthropic says.
use rtxag.Prelude.{
  ◌≡◌, refl, ◌∙◌, ◌==◌, ◌&&◌, String, true, false, Option, none, some, List, [], ◌∷◌, if◌then◌else◌,
  arith, eq_iff, contains, All, nonempty, Bool-cases, inl, inr,
}
use rtxag.Error.{ok, ok-bind, ok_injective}
use rtxag.Json.{Json, Items, Fields, bool, int, str, arr, lookup}
use rtxag.Json.Int.{pos}
use rtxag.Config.{Configuration}
use rtxag.Config.Merge.{lookup-assign}
use rtxag.FunctionCall.Dump.{Function}
use rtxag.Message.{Content, text, parts, Part}
use rtxag.Payload.{Prompt, HttpRequest, build_messages}
use rtxag.Payload.Entries.{or_earlier, configured}
use rtxag.Anthropic.Prepare.{
  extract_system_message, prepare_request, build_payload, build_message, add_settings, tools,
  build_header, base_payload, some_functions, add_tools, add_system,
}
use rtxag.Anthropic.Settings.{
  reserved, IsSetting, stop_if_any, no_stop, lookup-stop_sequences, lookup-add_settings,
}

abbrev offered : Option (List Function) → Option Json
offered none = none
offered (some []) = none
offered (some (f ∷ fs)) = some (arr (tools (f ∷ fs)))

abbrev system_entry : Option Content → Option Json
system_entry (some (text s)) = if nonempty s then some (str s) else none
system_entry _ = none

lookup-add_tools :
    (k : String) (fs : Option (List Function)) (d : Fields)
    → lookup k (add_tools fs d)
      ≡ (if "tools" == k then or_earlier (offered fs) (lookup k d) else lookup k d)
lookup-add_tools k none d = ground arith
lookup-add_tools k (some []) d = ground arith
lookup-add_tools k (some (f ∷ fs)) d =
    ground (arith, lookup-assign "tools" k (arr (tools (f ∷ fs))) d)

lookup-add_system :
    (k : String) (c : Option Content) (d d' : Fields)
    → add_system c d ≡ ok d'
    → lookup k d' ≡ (if "system" == k then or_earlier (system_entry c) (lookup k d) else lookup k d)
lookup-add_system k none d d' h = rw (← ok_injective d d' h) ground arith
lookup-add_system k (some (text s)) d d' h =
    rw (← ok_injective _ d' h) ground (arith, lookup-assign "system" k (str s) d)
lookup-add_system k (some (parts [])) d d' h = rw (← ok_injective d d' h) ground arith
lookup-add_system k (some (parts (p ∷ ps))) d d' h = cc

-- The entries of a payload with these messages after a system message.
abbrev pub Carries : (Json → String) → Option Content → Prompt → Items → Fields → Type 0
Carries to_str system p ms d =
    (lookup "messages" d ≡ some (arr ms))
    × (lookup "model" d ≡ some (str p.provider_model_id))
    × (lookup "stream" d ≡ some (bool p.stream))
    × (lookup "system" d ≡ system_entry system)
    × (lookup "tools" d ≡ offered p.functions)
    × (lookup "max_tokens" d
        ≡ or_earlier (configured "max_tokens" p.configs) (some (int (pos 4096))))
    × (lookup "stop_sequences" d ≡ stop_if_any to_str (configured "stop" p.configs))
    × (lookup "stop" d ≡ none)
    × ((k : String)
        → contains k ("stop" ∷ "max_tokens" ∷ reserved) ≡ false
        → lookup k d ≡ configured k p.configs)

unset :
    (k : String) (cs : Configuration)
    → contains k reserved ≡ true
    → All IsSetting cs
    → configured k cs ≡ none
unfolding configured
unset k [] h a = refl
unset k ((j, none) ∷ cs) h (q, a) = unset k cs h a
unset k ((j, some v) ∷ cs) h (q, a) = ground (arith, eq_iff j k, unset k cs h a)

or_earlier-none : (o : Option Json) → or_earlier o none ≡ o
or_earlier-none none = refl
or_earlier-none (some v) = refl

module _ (to_str : Json → String) (p : Prompt) (ms : Items) (system : Option Content)
    (with_system : Fields) (added : add_system system (base_payload ms p) ≡ ok with_system) where
  abbrev assembled : Fields
  assembled = add_settings to_str p.configs (add_tools p.functions with_system)

  before_settings :
      (k : String)
      → lookup k (add_tools p.functions with_system) ≡ (
          if "tools" == k
          then or_earlier (offered p.functions) (
              if "system" == k
              then or_earlier (system_entry system) (lookup k (base_payload ms p))
              else lookup k (base_payload ms p))
          else if "system" == k
          then or_earlier (system_entry system) (lookup k (base_payload ms p))
          else lookup k (base_payload ms p))
  before_settings k =
      rw
        (
          lookup-add_tools k p.functions with_system,
          lookup-add_system k system (base_payload ms p) with_system added,
        )
        refl

  fixed_entry :
      (k : String)
      → contains k reserved ≡ true
      → "stop" == k ≡ false
      → "stop_sequences" == k ≡ false
      → All IsSetting p.configs
      → lookup k assembled ≡ lookup k (add_tools p.functions with_system)
  fixed_entry k h q r a =
      lookup-add_settings to_str k p.configs (add_tools p.functions with_system) q r
      ∙ rw (unset k p.configs h a) refl

  nothing_else :
      (k : String)
      → contains k ("stop" ∷ "max_tokens" ∷ reserved) ≡ false
      → lookup k (add_tools p.functions with_system) ≡ none
  unfolding lookup
  nothing_else k h = before_settings k ∙ ground arith

  other_entry :
      (k : String)
      → contains k ("stop" ∷ "max_tokens" ∷ reserved) ≡ false
      → lookup k assembled ≡ configured k p.configs
  other_entry k h =
      lookup-add_settings to_str k p.configs (add_tools p.functions with_system) (ground arith)
        (ground arith)
      ∙ rw (nothing_else k h) (or_earlier-none (configured k p.configs))

  assembled-Carries : All IsSetting p.configs → Carries to_str system p ms assembled
  unfolding lookup
  assembled-Carries a = (
    fixed_entry "messages" refl refl refl a ∙ before_settings "messages",
    fixed_entry "model" refl refl refl a ∙ before_settings "model",
    fixed_entry "stream" refl refl refl a ∙ before_settings "stream",
    fixed_entry "system" refl refl refl a
        ∙ before_settings "system"
        ∙ or_earlier-none (system_entry system),
    fixed_entry "tools" refl refl refl a
        ∙ before_settings "tools"
        ∙ or_earlier-none (offered p.functions),
    lookup-add_settings to_str "max_tokens" p.configs (add_tools p.functions with_system) refl refl
        ∙ rw (before_settings "max_tokens") refl,
    lookup-stop_sequences to_str p.configs (add_tools p.functions with_system) a
        ∙ (rw (before_settings "stop_sequences")
            (or_earlier-none (stop_if_any to_str (configured "stop" p.configs)))),
    no_stop to_str p.configs (add_tools p.functions with_system) ∙ before_settings "stop",
    other_entry,
  )

-- A request that is prepared for Anthropic does not stream where it has functions, goes to the
-- address of Anthropic with its headers, and its payload says what the prompt says: a system message
-- at the head under "system", if it has text, and the other messages, built, in their order; the
-- model, whether to stream, and the tools; a limit of tokens, which is 4096 where the configuration
-- has none; what ends the answer as a list of texts under "stop_sequences" and not under "stop"; and
-- every other setting under its name. The configuration uses no name that the adapter itself sets.
pub prepare_request-Says :
    (to_str : Json → String) (repr : List Part → String) (p : Prompt) (r : HttpRequest)
    → All IsSetting p.configs
    → prepare_request to_str repr p ≡ ok r
    → let (system, others) = extract_system_message p.messages in
      (p.stream && some_functions p.functions ≡ false)
      × (r.api_url ≡ "https://api.anthropic.com/v1/messages")
      × (r.headers ≡ build_header p.credentials)
      × ((ms : Items) × (build_messages (build_message to_str repr) others ≡ ok ms)
          × Carries to_str system p ms r.payload)
unfolding prepare_request build_payload
prepare_request-Says to_str repr p r a h =
    elim (Bool-cases (p.stream && some_functions p.functions)) [
      | inl streams ↦ let absurd = rw streams at h in cc
      | inr plain ↦
          let (payload, h2, e) = ok-bind _ (build_payload to_str repr p) (rw plain at h) in
          let (ms, q, h3) =
            ok-bind _
              (build_messages (build_message to_str repr) (extract_system_message p.messages).1)
              h2 in
          let (with_system, added, e2) =
            ok-bind _ (add_system (extract_system_message p.messages).0 (base_payload ms p)) h3 in
          let same = ok_injective _ r e in
          (
            plain,
            rw (← same) refl,
            rw (← same) refl,
            (
              ms,
              q,
              rw (← same, ← ok_injective _ payload e2)
                  (assembled-Carries to_str p ms _ with_system added a),
            ),
          )
    ]
