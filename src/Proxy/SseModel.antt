-- ===== src/Proxy/SseModel.antt =====
-- The streaming restoration of the model name: internal/proxy/sse_model_rewrite.go.
--
-- Bytes are numbers. The JSON library is a parameter: the `type` field of a payload, whether
-- `message.model` exists, and the payload with that field set (none on an error).
pub mod Stream
pub mod Lines
pub mod Reads
use aikey_proxy.Prelude.{
  Bool, List, Option, String, [], eqb, false, if◌then◌else◌, map, none, not, some, suc, true, zero,
  ℕ, ◌&&◌, ◌++◌, ◌==◌, ◌||◌, ◌∷◌,
}
use aikey_proxy.Prelude.Lists.{length}

abbrev pub Bytes : Type 0
Bytes = List ℕ

abbrev pub newline : ℕ
newline = 10

pub record Json : Type 0 where
  pub type_of : Bytes → String
  pub has_model : Bytes → Bool
  pub set_model : Bytes → String → Option Bytes

pub record Rewriter : Type 0 where
  pub client_model : String
  pub done : Bool
  pub buf : Bytes
  pub out : Bytes
  pub eof_seen : Bool
  pub upstr_err : Bool

unfoldable pub fresh_rewriter : String → Rewriter
fresh_rewriter client_model = record {
  client_model = client_model;
  done = false;
  buf = [];
  out = [];
  eof_seen = false;
  upstr_err = false;
}

-- Without a client model no mapping took place, and the body is handed back as it is (`none`).
unfoldable pub new_rewriter : String → Option Rewriter
unfolding fresh_rewriter
new_rewriter client_model = if client_model == "" then none else some (fresh_rewriter client_model)

is_terminator : ℕ → Bool
is_terminator b = eqb b newline || eqb b 13

peel_step : ℕ → Bytes × Bytes → Bytes × Bytes
unfolding is_terminator
peel_step b ([], trailing) = if is_terminator b then ([], b ∷ trailing) else (b ∷ [], trailing)
peel_step b (c ∷ tail, trailing) = (b ∷ c ∷ tail, trailing)

-- A line without its terminators, and these.
peel : Bytes → Bytes × Bytes
unfolding peel_step
peel [] = ([], [])
peel (b ∷ line) = peel_step b (peel line)

-- "data: "
abbrev data_prefix : Bytes
data_prefix = 100 ∷ 97 ∷ 116 ∷ 97 ∷ 58 ∷ 32 ∷ []

strip_prefix : Bytes → Bytes → Option Bytes
strip_prefix [] line = some line
strip_prefix (p ∷ prefix) [] = none
strip_prefix (p ∷ prefix) (b ∷ line) =
    let rest = strip_prefix prefix line in if eqb p b then rest else none

is_object : Bytes → Bool
is_object [] = false
is_object (b ∷ payload) = eqb b 123

prepend : ℕ → Option (Bytes × Bytes) → Option (Bytes × Bytes)
prepend b none = none
prepend b (some (line, rest)) = some (b ∷ line, rest)

-- The first line with its newline, and what follows it.
pub split_line : Bytes → Option (Bytes × Bytes)
unfolding prepend
split_line [] = none
split_line (b ∷ bytes) =
    if eqb b newline then some (b ∷ [], bytes) else prepend b (split_line bytes)

module _ (json : Json) (client_model : String) where
  -- The line to emit, and whether the model is rewritten now.
  patched : Bytes → Bytes → Option Bytes → Bytes × Bool
  patched line trailing none = (line, false)
  patched line trailing (some payload) = (data_prefix ++ payload ++ trailing, true)

  rewrite_payload : Bytes → Bytes → Option Bytes → Bytes × Bool
  unfolding patched is_object
  rewrite_payload line trailing none = (line, false)
  rewrite_payload line trailing (some payload) =
      if is_object payload && json.type_of payload == "message_start" && json.has_model payload
      then patched line trailing (json.set_model payload client_model)
      else (line, false)

  rewrite_peeled : Bytes → Bytes × Bytes → Bytes × Bool
  unfolding rewrite_payload strip_prefix
  rewrite_peeled line (tail, trailing) =
      rewrite_payload line trailing (strip_prefix data_prefix tail)

  unfoldable pub rewrite_model_line : Bool → Bytes → Bytes × Bool
  unfolding rewrite_peeled peel
  rewrite_model_line done line = if done then (line, true) else rewrite_peeled line (peel line)

module _ (json : Json) where
  emit_line : Rewriter → Bytes → Bytes × Bool → Rewriter
  emit_line r rest (line, done) = record r { buf = rest; out = r.out ++ line; done = done }

  -- One complete line of the buffer is moved out; none is left when there is no newline.
  process_line : Rewriter → Option (Bytes × Bytes) → Option Rewriter
  unfolding emit_line rewrite_model_line
  process_line r none = none
  process_line r (some (line, rest)) =
      some (emit_line r rest (rewrite_model_line json r.client_model r.done line))

  -- The loop over the lines; its fuel is the length of the buffer.
  go_on : (Rewriter → Rewriter) → Rewriter → Option Rewriter → Rewriter
  go_on next r none = r
  go_on next r (some r') = next r'

  pub process_lines : ℕ → Rewriter → Rewriter
  unfolding go_on process_line split_line
  process_lines zero r = r
  process_lines (suc n) r = go_on (λ r'. process_lines n r') r (process_line r (split_line r.buf))

  unfoldable pub process_complete_lines : Rewriter → Rewriter
  unfolding process_lines
  process_complete_lines r = process_lines (length r.buf) r

  feed : Bytes → Rewriter → Rewriter
  unfolding process_complete_lines
  feed chunk r = process_complete_lines (record r { buf = r.buf ++ chunk })

  -- The upstream ended: what is left of a line goes out unchanged.
  ended : Bool → Rewriter → Rewriter
  ended fails r = record r { eof_seen = true; upstr_err = fails; out = r.out ++ r.buf; buf = [] }

  is_empty : Bytes → Bool
  is_empty [] = true
  is_empty (b ∷ bytes) = false

  -- Upstream reads until there is something for the client.
  fill : List Bytes → Bool → Rewriter → Rewriter × List Bytes
  unfolding feed ended is_empty
  fill [] fails r = (ended fails r, [])
  fill (chunk ∷ chunks) fails r =
      let r' = feed chunk r in
      let later = fill chunks fails r' in if is_empty r'.out then later else (r', chunks)

  take_bytes : ℕ → Bytes → Bytes × Bytes
  take_bytes zero bytes = ([], bytes)
  take_bytes (suc n) [] = ([], [])
  take_bytes (suc n) (b ∷ bytes) = let (taken, left) = take_bytes n bytes in (b ∷ taken, left)

  -- The bytes of a read and whether it reports the end, then what is left.
  pub record Reading : Type 0 where
    pub given : Bytes
    pub end : Bool
    pub rewriter : Rewriter
    pub chunks : List Bytes

  drained : ℕ → Rewriter → List Bytes → Reading
  unfolding take_bytes is_empty
  drained n r chunks =
      let (taken, left) = take_bytes n r.out in
      record {
        given = taken;
        end = is_empty r.out;
        rewriter = record r { out = left };
        chunks = chunks;
      }

  filled : ℕ → Rewriter × List Bytes → Reading
  unfolding drained
  filled n (r, chunks) = drained n r chunks

  pub read : ℕ → Bool → Rewriter → List Bytes → Reading
  unfolding filled drained fill
  read n fails r chunks =
      if not (is_empty r.out) || r.eof_seen
      then drained n r chunks
      else filled n (fill chunks fails r)

  -- Reads of the sizes given, one after the other.
  unfoldable pub reads : List ℕ → Bool → Rewriter → List Bytes → Bytes × Rewriter × List Bytes
  unfolding read
  reads [] fails r chunks = ([], r, chunks)
  reads (n ∷ ns) fails r chunks =
      let one = read n fails r chunks in
      let (given, r', chunks') = reads ns fails one.rewriter one.chunks in
      (one.given ++ given, r', chunks')
