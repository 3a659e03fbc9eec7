-- ===== src/OpenAi/Assembly.antt =====
-- Function calls that are streamed in pieces are put together again.
use Prim.Native.String as Text
use rtxag.Prelude.{
  ℕ, zero, suc, ◌+◌, String, ◌≡◌, refl, sym, ◌∙◌, true, false, List, [], ◌∷◌, ◌++◌, map, length,
  length-append, append, leb, append_assoc, arith, append-nil,
}
use rtxag.Error.{Result, ok, ◌>>=◌}
use rtxag.Json.{Json, int, str, arr, obj, nil, cons, field, end, lookup}
use rtxag.Json.Int.{ℤ, pos, negsuc}
use rtxag.FunctionCall.Building.{CallsContent, no_calls}
use rtxag.OpenAi.{
  stream_handle_function_calls, add_at, add_tool_call, add_at_index, read_tool_calls,
}
use rtxag.Json.Access.{get_key, item, first}

-- A call as it is sent: the pieces of its arguments, the first one with the name.
pub record SentCall : Type 0 where
  pub name : String
  pub start : String
  pub pieces : List String

abbrev pub delta : Json → Json
delta call = obj (field "delta" (obj (field "tool_calls" (arr (cons call nil)) end)) end)

-- The chunk that begins the i-th call, and one that continues it.
abbrev pub begin_chunk : ℕ → String → String → Json
begin_chunk i name start = delta (
    obj (
      field "index" (int (pos i))
        (field "function" (obj (field "name" (str name) (field "arguments" (str start) end))) end)))

abbrev pub piece_chunk : ℕ → String → Json
piece_chunk i s =
    delta (
      obj
        (field "index" (int (pos i)) (field "function" (obj (field "arguments" (str s) end)) end)))

abbrev pub chunks_of : ℕ → SentCall → List Json
chunks_of i c = begin_chunk i c.name c.start ∷ map (piece_chunk i) c.pieces

abbrev pub all_chunks : ℕ → List SentCall → List Json
all_chunks i [] = []
all_chunks i (c ∷ cs) = chunks_of i c ++ all_chunks (suc i) cs

-- The content after chunks, as the streaming loop keeps it.
unfoldable pub read_chunks : CallsContent → List Json → Result CallsContent
read_chunks c [] = ok c
read_chunks c (d ∷ ds) = stream_handle_function_calls d c >>= λ (o, c'). read_chunks c' ds

abbrev pub whole : String → List String → String
whole s [] = s
whole s (t ∷ ts) = whole (append s t) ts

abbrev pub before : ℕ → ℤ
before zero = negsuc 0
before (suc n) = pos n

abbrev content_at : ℕ → List String → List String → CallsContent
content_at i strs names = record {
  index = before i;
  arguments_strs = strs;
  arguments_dicts = [];
  names = names;
}

add_last :
    (xs : List String) (s t : String)
    → add_at (length xs) t (xs ++ s ∷ []) ≡ ok (xs ++ append s t ∷ [])
unfolding add_at
add_last [] s t = refl
add_last (x ∷ xs) s t = rw (add_last xs s t) refl

leb_refl : (n : ℕ) → leb (n + 0) (n + 0) ≡ true
leb_refl n = ground arith

leb_before : (n : ℕ) → leb (suc n + 0) (n + 0) ≡ false
leb_before n = ground arith

piece_added :
    (xs names : List String) (s t : String) (n : ℕ)
    → length xs ≡ n
    → add_tool_call
        (content_at (suc n) (xs ++ s ∷ []) names)
        (pos n)
        (obj (field "arguments" (str t) end))
      ≡ ok (content_at (suc n) (xs ++ append s t ∷ []) names)
unfolding add_tool_call add_at_index item lookup
piece_added xs names s t n h = rw (leb_refl n) (rw (← h) (rw (add_last xs s t) refl))

begin_added :
    (strs names : List String) (name start : String) (n : ℕ)
    → add_tool_call
        (content_at n strs names)
        (pos n)
        (obj (field "name" (str name) (field "arguments" (str start) end)))
      ≡ ok (content_at (suc n) (strs ++ start ∷ []) (names ++ name ∷ []))
unfolding add_tool_call item lookup
begin_added strs names name Text.[] zero = refl
begin_added strs names name (Text.◌∷◌ c start) zero = refl
begin_added strs names name Text.[] (suc n) = rw (leb_before n) refl
begin_added strs names name (Text.◌∷◌ c start) (suc n) = rw (leb_before n) refl

read_piece :
    (xs names : List String) (s t : String) (n : ℕ) (ds : List Json)
    → length xs ≡ n
    → read_chunks (content_at (suc n) (xs ++ s ∷ []) names) (piece_chunk n t ∷ ds)
      ≡ read_chunks (content_at (suc n) (xs ++ append s t ∷ []) names) ds
unfolding read_chunks stream_handle_function_calls read_tool_calls get_key item first lookup
read_piece xs names s t n ds h = rw (piece_added xs names s t n h) refl

read_begin :
    (strs names : List String) (name start : String) (n : ℕ) (ds : List Json)
    → read_chunks (content_at n strs names) (begin_chunk n name start ∷ ds)
      ≡ read_chunks (content_at (suc n) (strs ++ start ∷ []) (names ++ name ∷ [])) ds
unfolding read_chunks stream_handle_function_calls read_tool_calls get_key item first lookup
read_begin strs names name start n ds = rw (begin_added strs names name start n) refl

read_pieces :
    (xs names : List String) (s : String) (ts : List String) (n : ℕ) (ds : List Json)
    → length xs ≡ n
    → read_chunks (content_at (suc n) (xs ++ s ∷ []) names) (map (piece_chunk n) ts ++ ds)
      ≡ read_chunks (content_at (suc n) (xs ++ whole s ts ∷ []) names) ds
read_pieces xs names s [] n ds h = refl
read_pieces xs names s (t ∷ ts) n ds h =
    read_piece xs names s t n (map (piece_chunk n) ts ++ ds) h
    ∙ read_pieces xs names (append s t) ts n ds h

abbrev pub arguments_of : SentCall → String
arguments_of c = whole c.start c.pieces

abbrev pub name_of : SentCall → String
name_of c = c.name

pub one_more :
    (xs : List String) (s : String) (n : ℕ) → length xs ≡ n → length (xs ++ s ∷ []) ≡ suc n
one_more xs s n h = omega (arith, length-append xs (s ∷ []), h)

same_content :
    (i j : ℕ) (xs ys ns ms : List String)
    → i ≡ j
    → xs ≡ ys
    → ns ≡ ms
    → ◌≡◌ {A = Result CallsContent} (ok (content_at i xs ns)) (ok (content_at j ys ms))
same_content i j xs ys ns ms p q r = rw p (rw q (rw r refl))

read_calls :
    (strs names : List String) (n : ℕ) (cs : List SentCall)
    → length strs ≡ n
    → read_chunks (content_at n strs names) (all_chunks n cs)
      ≡ ok (content_at (n + length cs) (strs ++ map arguments_of cs) (names ++ map name_of cs))
read_calls strs names n [] h =
    unfold read_chunks in
    same_content n (n + 0) strs (strs ++ []) names (names ++ []) (omega arith)
      (sym (append-nil strs)) (sym (append-nil names))
read_calls strs names n (c ∷ cs) h =
    read_begin strs names c.name c.start n (map (piece_chunk n) c.pieces ++ all_chunks (suc n) cs)
    ∙ read_pieces strs (names ++ c.name ∷ []) c.start c.pieces n (all_chunks (suc n) cs) h
    ∙ read_calls (strs ++ arguments_of c ∷ []) (names ++ c.name ∷ []) (suc n) cs
        (one_more strs (arguments_of c) n h)
    ∙ same_content (suc n + length cs) (n + suc (length cs)) _ _ _ _ (omega arith)
        (append_assoc strs (arguments_of c ∷ []) (map arguments_of cs))
        (append_assoc names (c.name ∷ []) (map name_of cs))

-- Calls that are streamed one after the other, each in any number of pieces, are put together: for
-- each call its name, and its arguments as the pieces in order make them up.
pub read_chunks-all_chunks :
    (cs : List SentCall)
    → read_chunks no_calls (all_chunks 0 cs)
      ≡ ok (record {
        index = before (length cs);
        arguments_strs = map arguments_of cs;
        arguments_dicts = [];
        names = map name_of cs;
      })
read_chunks-all_chunks cs =
    read_calls [] [] 0 cs refl
    ∙ same_content (0 + length cs) (length cs) _ _ _ _ (omega arith) refl refl
