-- ===== src/Replay.antt =====
-- paddington/src/anti_replay.rs: the sliding window that rejects replayed nonces, the payload that
-- carries a nonce, and the windows that a peer keeps for each incarnation of a sender. The children
-- prove that the window accepts exactly what an unbounded history would, as far as it reaches back.
use openportal.Base.{
  ℕ, zero, suc, ◌+◌, ◌-◌, ◌*◌, ◌/◌, ◌%◌, ◌^◌, List, [], ◌∷◌, Bool, true, false, not, ◌&&◌, Option,
  none, some, ◌==◌, nat_eq, option_eq, if◌then◌else◌, get_or, get_elem?, set, take, replicate,
  nat_beq, ltb, leb, length,
}
use openportal.Base.Text.{Text}
use openportal.Base.Bits.{shl64, shr, low_bit_set}
use Prim.Native.Nat.{bit_or}
pub mod Bitmap
pub mod Shift
pub mod Specification
pub mod Refinement
pub mod History
pub mod Epochs
pub mod Eviction
mod Tests

abbrev pub window_bits : ℕ
window_bits = 1024

abbrev pub window_words : ℕ
window_words = window_bits / 64

-- `bitmap` has `window_words` words of 64 bits.
pub record ReplayWindow : Type 0 where
  pub initialized : Bool
  pub highest : ℕ
  pub bitmap : List ℕ

unfoldable pub new : ReplayWindow
new = record { initialized = false; highest = 0; bitmap = replicate window_words 0 }

-- A write beyond the bitmap is dropped, as `get_mut` gives nothing there.
unfoldable pub set_bit : List ℕ → ℕ → List ℕ
set_bit bitmap b = set bitmap (b / 64) (bit_or (get_or bitmap (b / 64) 0) (shl64 1 (b % 64)))

unfoldable pub test_bit : List ℕ → ℕ → Bool
test_bit bitmap b = elim (get_elem? bitmap (b / 64)) [
  | none ↦ false
  | some word ↦ low_bit_set (shr word (b % 64))
]

-- `for i in (word_shift..WINDOW_WORDS).rev()`, with the number of rounds left: in the round that
-- leaves `n`, `i` is `word_shift + n`.
unfoldable pub carry_words : ℕ → ℕ → List ℕ → List ℕ
carry_words zero word_shift bitmap = bitmap
carry_words (suc n) word_shift bitmap =
    carry_words n word_shift (set bitmap (word_shift + n) (get_or bitmap n 0))

-- `for word in bitmap.iter_mut().take(n) { *word = 0 }`
unfoldable pub zero_words : ℕ → List ℕ → List ℕ
zero_words zero bitmap = bitmap
zero_words (suc n) [] = []
zero_words (suc n) (word ∷ bitmap) = 0 ∷ zero_words n bitmap

-- `for i in (1..WINDOW_WORDS).rev()`: in the round that leaves `n`, `i` is `n + 1`.
unfoldable pub carry_bits : ℕ → ℕ → List ℕ → List ℕ
carry_bits zero bit_shift bitmap = bitmap
carry_bits (suc n) bit_shift bitmap = carry_bits n bit_shift (
    set bitmap (suc n) (
      bit_or (shl64 (get_or bitmap (suc n) 0) bit_shift)
        (shr (get_or bitmap n 0) (64 - bit_shift))))

unfoldable pub shift_by_words : ℕ → List ℕ → List ℕ
shift_by_words word_shift bitmap =
    if ltb 0 word_shift
    then zero_words word_shift (carry_words (window_words - word_shift) word_shift bitmap)
    else bitmap

unfoldable pub shift_by_bits : ℕ → List ℕ → List ℕ
shift_by_bits bit_shift bitmap =
    let carried = carry_bits (window_words - 1) bit_shift bitmap in
    if ltb 0 bit_shift then set carried 0 (shl64 (get_or carried 0 0) bit_shift) else bitmap

unfoldable pub shift_left : List ℕ → ℕ → List ℕ
shift_left bitmap k =
    if leb window_bits k
    then replicate window_words 0
    else shift_by_bits (k % 64) (shift_by_words (k / 64) bitmap)

-- The first nonce, a nonce above all, one inside the window, or one too old.
unfoldable pub check_and_record : ReplayWindow → ℕ → ReplayWindow × Bool
check_and_record w nonce =
    if not w.initialized
    then (record w { initialized = true; highest = nonce; bitmap = set_bit w.bitmap 0 }, true)
    else if ltb w.highest nonce
    then (
      record w { highest = nonce; bitmap = set_bit (shift_left w.bitmap (nonce - w.highest)) 0 },
      true,
    )
    else if leb window_bits (w.highest - nonce)
    then (w, false)
    else if test_bit w.bitmap (w.highest - nonce)
    then (w, false)
    else (record w { bitmap = set_bit w.bitmap (w.highest - nonce) }, true)

unfoldable pub check_and_record_optional : ReplayWindow → Option ℕ → ReplayWindow × Bool
unfolding check_and_record
check_and_record_optional w (some nonce) = check_and_record w nonce
check_and_record_optional w none = (w, true)

abbrev is_none {ℓ} : {A : Type ℓ} → Option A → Bool
is_none none = true
is_none (some _) = false

unfoldable pub check_and_record_negotiated : ReplayWindow → Option ℕ → Bool → ReplayWindow × Bool
unfolding check_and_record_optional
check_and_record_negotiated w nonce peer_supports_nonce =
    if is_none nonce && peer_supports_nonce then (w, false) else check_and_record_optional w nonce

pub data NoncedPayload : Type 0 where
  nonced : ℕ → Text → NoncedPayload
  legacy : Text → NoncedPayload

unfoldable pub for_peer : ℕ → Text → Bool → NoncedPayload
for_peer nonce payload peer_supports_nonce =
    if peer_supports_nonce then nonced nonce payload else legacy payload

unfoldable pub into_parts : NoncedPayload → Option ℕ × Text
into_parts (nonced nonce payload) = (some nonce, payload)
into_parts (legacy payload) = (none, payload)

abbrev pub max_tracked_epochs : ℕ
max_tracked_epochs = 8

abbrev pub u64_mod : ℕ
u64_mod = 2 ^ 64

-- One window for each epoch, the most recently used first.
pub record HandshakeNonceState : Type 0 where
  pub next_nonce : ℕ
  pub windows : List (Option ℕ × ReplayWindow)

unfoldable pub initial : HandshakeNonceState
initial = record { next_nonce = 0; windows = [] }

unfoldable pub take_next_nonce : HandshakeNonceState → HandshakeNonceState × ℕ
take_next_nonce s = (record s { next_nonce = (s.next_nonce + 1) % u64_mod }, s.next_nonce)

-- `position` and `Vec::remove`: the window of the first entry with the epoch, and the other entries.
unfoldable pub remove_entry :
    Option ℕ
    → List (Option ℕ × ReplayWindow)
    → Option (ReplayWindow × List (Option ℕ × ReplayWindow))
remove_entry epoch [] = none
remove_entry epoch ((e, w) ∷ ws) =
    let rest = remove_entry epoch ws in
    if e == epoch
    then some (w, ws)
    else elim rest [ none ↦ none | some (v, vs) ↦ some (v, (e, w) ∷ vs) ]

unfoldable pub check_replay : HandshakeNonceState → Option ℕ → Option ℕ → HandshakeNonceState × Bool
unfolding remove_entry
check_replay s epoch nonce = elim (remove_entry epoch s.windows) [
  | some (window, others) ↦
      let (window', accepted) = check_and_record_optional window nonce in
      (record s { windows = (epoch, window') ∷ others }, accepted)
  | none ↦
      let (window', accepted) = check_and_record_optional new nonce in
      (record s { windows = take max_tracked_epochs ((epoch, window') ∷ s.windows) }, accepted)
]
