-- ===== src/Replay/Tests.antt =====
-- Concrete messages for the theorems on replay protection.
use openportal.Base.{ℕ, List, [], ◌∷◌, true, false, some, none, ◌≡◌, refl, arith}
use openportal.Replay.{
  new, check_and_record, check_and_record_optional, set_bit, test_bit, shift_left, shift_by_words,
  shift_by_bits, carry_words, zero_words, carry_bits, initial, check_replay, remove_entry,
}
use openportal.Replay.Specification.{check_all, after_all, decide_all}
use openportal.Replay.History.{check_all-decide_all, replay_refused}
use openportal.Replay.Epochs.{Message, receive_all, IsValid, initial-receive_all-IsValid}
use openportal.Replay.Eviction.{check_replay_refused, restart_accepted}

program : Unit {0}
unfolding new check_and_record check_and_record_optional set_bit test_bit shift_left shift_by_words
    shift_by_bits carry_words zero_words carry_bits check_all after_all initial check_replay
    remove_entry receive_all
program = tt

-- In order, repeated, out of order, far ahead, at the edge of the window and just beyond it.
abbrev nonces : List ℕ
nonces = 5 ∷ 5 ∷ 3 ∷ 3 ∷ 1200 ∷ 177 ∷ 176 ∷ 5 ∷ 1199 ∷ []

check_all_runs :
    check_all new nonces ≡ true ∷ false ∷ true ∷ false ∷ true ∷ true ∷ false ∷ false ∷ true ∷ []
unfolding program
check_all_runs = refl

check_all-decide_all_example : check_all new nonces ≡ decide_all [] nonces
check_all-decide_all_example = check_all-decide_all nonces

seven_accepted : (check_and_record (after_all new (5 ∷ 6 ∷ [])) 7).1 ≡ true
unfolding program
seven_accepted = refl

replay_refused_example :
    (check_and_record
      (after_all (check_and_record (after_all new (5 ∷ 6 ∷ [])) 7).0 (900 ∷ 2000 ∷ []))
      7).1
    ≡ false
replay_refused_example = replay_refused (5 ∷ 6 ∷ []) (900 ∷ 2000 ∷ []) 7 seven_accepted

abbrev messages : List Message
messages = (some 10, some 0) ∷ (some 11, some 0) ∷ (none, none) ∷ []

initial-receive_all-IsValid_example : IsValid (receive_all initial messages)
initial-receive_all-IsValid_example = initial-receive_all-IsValid messages

ten_accepted : (check_replay (receive_all initial messages) (some 10) (some 1)).1 ≡ true
unfolding program
ten_accepted = refl

check_replay_refused_example :
    (check_replay
      (receive_all (check_replay (receive_all initial messages) (some 10) (some 1)).0 messages)
      (some 10)
      (some 1)).1
    ≡ false
check_replay_refused_example =
    check_replay_refused messages messages (some 10) 1 (omega arith) ten_accepted

restart_accepted_example : (check_replay (receive_all initial messages) (some 12) (some 0)).1 ≡ true
restart_accepted_example =
    restart_accepted messages (some 12) (some 0) ((λ e. cc), ((λ e. cc), ((λ e. cc), tt)))
