-- ===== src/Stream/Tests.antt =====
-- The reader and the decoder on short streams, and the theorems about them at such inputs.
use rtxag.Prelude.{String, ◌≡◌, refl, Option, none, some, [], ◌∷◌}
use rtxag.Prelude.Text.{has_char}
use rtxag.Error.{ok}
use rtxag.Json.{str}
use rtxag.Json.Int.{ℤ}
use rtxag.Stream.{Codec, fresh, iter}
use rtxag.Stream.Decoder.{Sent, encode_all, received, iter-encode_all}

abbrev texts : Codec
texts = record { Bytes = String; utf8 = λ s. ok s; loads = λ s. some (str s) }

abbrev no_int : String → Option ℤ
no_int s = none

abbrev greeting : Sent
greeting = record { id = some "1"; event = some "add"; first = "hello"; others = "world" ∷ [] }

iter-encode_all_example :
    (iter no_int fresh (encode_all (greeting ∷ []))).0 ≡ received none (greeting ∷ [])
unfolding has_char
iter-encode_all_example =
    iter-encode_all no_int none (greeting ∷ []) (((refl, refl), (refl, refl), refl, (refl, tt)), tt)
