-- ===== src/JsonFilter.antt =====
-- evd/evd-json-filter.c: the filter that cuts a stream of bytes into JSON packets. A packet that
-- is handed to the packet handler is an entry of the result. A buffer is shorter than 2 ^ 31 bytes,
-- so that `gint` indices do not wrap. An access outside of the 128 entries of the stack is `none`.
pub mod Table
pub mod Safety
pub mod Feeding
pub mod Stream
pub mod Errors
mod Tests
use event_dance.Common.{
  ℕ, zero, suc, ◌+◌, ◌-◌, ltb, ◌==◌, leb, Bool, true, false, not, ◌||◌, ◌&&◌, if◌then◌else◌, Option,
  none, some, List, [], ◌∷◌, ◌++◌, get_elem?, get_or, set, replicate, length, take, drop,
}
use event_dance.Common.Int.{ℤ, pos, negsuc, suc_ℤ, pred_ℤ, is_neg, geb_ℕ, signed8}
use Table.{
  State, Class, Cell, ascii_class, state_transition_table, go, ok, ob, ke, co, va, ar, fail, goto,
  colon, comma, quote, lsqrb, lcurb, rsqrb, rcurb, empty_rcurb, c_etc,
}

abbrev pub max_depth : ℕ
max_depth = 128

-- enum modes
pub data Mode : Type 0 where
  mode_array mode_done mode_key mode_object : Mode

abbrev pub mode_eq : Mode → Mode → Bool
mode_eq mode_array mode_array = true
mode_eq mode_done mode_done = true
mode_eq mode_key mode_key = true
mode_eq mode_object mode_object = true
mode_eq _ _ = false

-- The fields of struct _EvdJsonFilterPrivate that stem from JSON_checker.
pub record Checker : Type 0 where
  pub state : State
  pub depth : ℕ
  pub top : ℤ
  pub stack : List Mode

-- struct _EvdJsonFilterPrivate. `has_handler` tells whether `packet_cb` is set.
pub record Filter : Type 0 where
  pub checker : Checker
  pub content_start : ℤ
  pub cache : List ℕ
  pub has_handler : Bool

infixl 5 ◌>>=◌
abbrev pub ◌>>=◌ {ℓ κ} : {A : Type ℓ} {B : Type κ} → Option A → (A → Option B) → Option B
none >>= f = none
some a >>= f = f a

-- stack[i]
abbrev pub stack_get : List Mode → ℤ → Option Mode
stack_get l (pos n) = get_elem? l n
stack_get l (negsuc n) = none

-- stack[i] = mode
abbrev pub stack_set : List Mode → ℤ → Mode → Option (List Mode)
stack_set l (pos n) mode = if ltb n (length l) then some (set l n mode) else none
stack_set l (negsuc n) mode = none

-- evd_json_filter_push, whose result is the new state with the Boolean that it returns.
pub push : Checker → Mode → Option (Checker × Bool)
push k mode =
    let top = suc_ℤ k.top in
    if geb_ℕ top k.depth
    then some (record k { top = top }, false)
    else (do stack ← stack_set k.stack top mode; some (record k { top = top; stack = stack }, true))

-- evd_json_filter_pop
pub pop : Checker → Mode → Option (Checker × Bool)
pop k mode = if is_neg k.top then some (k, false) else (do
  current ← stack_get k.stack k.top
  if mode_eq current mode then some (record k { top = pred_ℤ k.top }, true) else some (k, false))

-- The checker's part of evd_json_filter_reset; it also resets `content_start`.
pub reset_checker : Checker → Option Checker
reset_checker k = do
  r ← push (record k { state = go; depth = max_depth; top = negsuc 0 }) mode_done
  some (r.0)

-- How evd_json_filter_process goes on from a character: by the transition table alone, by an
-- action, or by evd_json_filter_error, which resets the filter.
pub data Verdict : Type 0 where
  moved acted rejected : Checker → Verdict

pub error : Checker → Option Verdict
error k = do k' ← reset_checker k; some (rejected k')

-- An action's last part: the new state, or an error when a push or a pop has failed.
abbrev pub finish : State → Checker × Bool → Option Verdict
finish s (k, true) = some (acted (record k { state = s }))
finish s (k, false) = error k

-- Two stack operations in a row; the second is not made when the first fails.
abbrev pub and_push : Mode → Checker × Bool → Option (Checker × Bool)
and_push mode (k, true) = push k mode
and_push mode (k, false) = some (k, false)

pub on_quote : Checker → Mode → Option Verdict
on_quote k mode_key = some (acted (record k { state = co }))
on_quote k mode_array = some (acted (record k { state = ok }))
on_quote k mode_object = some (acted (record k { state = ok }))
on_quote k mode_done = error k

pub on_comma : Checker → Mode → Option Verdict
on_comma k mode_object = do r ← pop k mode_object; r' ← and_push mode_key r; finish ke r'
on_comma k mode_array = some (acted (record k { state = va }))
on_comma k mode_key = error k
on_comma k mode_done = error k

-- The switch over the entry of the transition table.
pub perform : Checker → Cell → Option Verdict
perform k (goto s) = some (moved (record k { state = s }))
perform k empty_rcurb = do r ← pop k mode_key; finish ok r
perform k rcurb = do r ← pop k mode_object; finish ok r
perform k rsqrb = do r ← pop k mode_array; finish ok r
perform k lcurb = do r ← push k mode_key; finish ob r
perform k lsqrb = do r ← push k mode_array; finish ar r
perform k quote = do mode ← stack_get k.stack k.top; on_quote k mode
perform k comma = do mode ← stack_get k.stack k.top; on_comma k mode
perform k colon = do r ← pop k mode_key; r' ← and_push mode_object r; finish va r'
perform k fail = error k

-- The character's class; none is the error code.
pub classify : ℤ → Option Class
classify (negsuc n) = none
classify (pos n) = if leb 128 n then some c_etc else get_or ascii_class n none

abbrev pub check_class : Checker → Option Class → Option Verdict
check_class k none = error k
check_class k (some next_class) = perform k (state_transition_table k.state next_class)

pub check_char : Checker → ℤ → Option Verdict
check_char k next_char = check_class k (classify next_char)

-- evd_json_filter_process: the verdict on the checker and what becomes of `content_start`.
abbrev pub begin_content : ℤ → ℕ → ℤ
begin_content (negsuc zero) offset = pos offset
begin_content (negsuc (suc n)) offset = negsuc (suc n)
begin_content (pos s) offset = pos s

abbrev pub conclude : Filter → ℕ → Verdict → Filter × Bool
conclude f offset (moved k) = (record f { checker = k }, true)
conclude f offset (acted k) =
    (record f { checker = k; content_start = begin_content f.content_start offset }, true)
conclude f offset (rejected k) = (record f { checker = k; content_start = negsuc 0 }, false)

pub process : Filter → ℤ → ℕ → Option (Filter × Bool)
process f next_char offset = do v ← check_char f.checker next_char; some (conclude f offset v)

-- evd_json_filter_reset
pub reset : Filter → Option Filter
reset f = do k ← reset_checker f.checker; some (record f { checker = k; content_start = negsuc 0 })

-- The private structure after g_new0 and evd_json_filter_init.
pub new : Option Filter
new = reset (record {
  checker = record { state = go; depth = 0; top = pos 0; stack = replicate max_depth mode_array };
  content_start = pos 0;
  cache = [];
  has_handler = false;
})

-- evd_json_filter_notify_packet
abbrev pub notify_packet : Filter → List ℕ → List (List ℕ)
notify_packet f packet = if f.has_handler then packet ∷ [] else []

-- buffer[from .. to)
abbrev pub slice : List ℕ → ℕ → ℕ → List ℕ
slice buffer from to = take (to - from) (drop from buffer)

-- The packet that ends with the byte at `i`, and the filter with its cache emptied.
abbrev pub packet_at : List ℕ → Filter → ℕ → List ℕ → ℕ → List ℕ
packet_at buffer f i [] start = slice buffer start (i + 1)
packet_at buffer f i (b ∷ bs) start = (b ∷ bs) ++ take (i + 1) buffer

-- What evd_json_filter_feed_len returns.
pub record Fed : Type 0 where
  pub filter : Filter
  pub packets : List (List ℕ)
  pub error_at : Option ℕ

-- The part of the loop's body after a character has been accepted.
abbrev pub deliver : List ℕ → Filter → ℕ → ℤ → Option (Filter × List (List ℕ))
deliver buffer f i (negsuc n) = some (f, [])
deliver buffer f i (pos start) = do
  current ← stack_get f.checker.stack f.checker.top
  if mode_eq current mode_done
      then (do
        f' ← reset (record f { cache = [] })
        some (f', notify_packet f (packet_at buffer f i f.cache start)))
      else some (f, [])

-- One round of the loop: go on with the next character, or fail.
pub data Round : Type 0 where
  next : Filter → List (List ℕ) → Round
  stop : Filter → Round

abbrev pub accepted : List ℕ → ℕ → Filter × Bool → Option Round
accepted buffer i (f, true) = do d ← deliver buffer f i f.content_start; some (next (d.0) (d.1))
accepted buffer i (f, false) = some (stop f)

pub feed_char : List ℕ → Filter → ℕ → ℕ → Option Round
feed_char buffer f c i = do r ← process f (signed8 c) i; accepted buffer i r

-- What follows the loop: the part of a packet that is still open goes to the cache.
abbrev pub keep_rest : List ℕ → Filter → ℤ → Filter
keep_rest buffer f (negsuc n) = f
keep_rest buffer f (pos start) = record f {
  cache = f.cache ++ drop start buffer;
  content_start = pos 0;
}

abbrev pub prepend : List (List ℕ) → Fed → Fed
prepend ps r = record r { packets = ps ++ r.packets }

-- The loop from index `i` on; the last list is buffer[i ..].
pub feed_loop : List ℕ → Filter → ℕ → List ℕ → Option Fed
feed_loop buffer f i [] =
    some (record { filter = keep_rest buffer f f.content_start; packets = []; error_at = none })
feed_loop buffer f i (c ∷ cs) = do
  r ← feed_char buffer f c i
  elim r [
    | next f' ps ↦ do rest ← feed_loop buffer f' (suc i) cs; some (prepend ps rest)
    | stop f' ↦ some (record { filter = f'; packets = []; error_at = some i })
  ]

pub feed_len : Filter → List ℕ → Option Fed
feed_len f buffer = feed_loop buffer f 0 buffer

-- The bytes before the terminating NUL, which `strlen` counts.
pub until_nul : List ℕ → List ℕ
until_nul [] = []
until_nul (b ∷ bs) = if b == 0 then [] else b ∷ until_nul bs

pub feed : Filter → List ℕ → Option Fed
feed f buffer = feed_len f (until_nul buffer)

-- The freed user data of the former handler is not modelled.
pub set_packet_handler : Filter → Bool → Filter
set_packet_handler f handler = record f { has_handler = handler }
