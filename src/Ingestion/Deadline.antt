-- ===== src/Ingestion/Deadline.antt =====
-- src/market_relay/domain/ingestion/provider_execution.py: a provider's call in a child process with
-- a deadline. What the operating system does is an argument: how the child's action goes, and which
-- messages the pipe holds while nobody reads it.
pub mod Replies
use market_relay.Prelude.{Bool, Option, none, some, if◌then◌else◌}
use market_relay.Action.{
  Outcome, returned, raised, provider_timeout, provider_process_error, eof_error,
}

-- How the child's action goes: it ends in time with a value or an exception, it is still at work at
-- the deadline, or the process dies before it can send anything.
pub data Call {ℓ} (A : Type ℓ) : Type ℓ where
  ends : Outcome A → Call A
  works_on dies : Call A

-- `(True, value)` and `(False, None)`
pub data Message {ℓ} (A : Type ℓ) : Type ℓ where
  succeeded : A → Message A
  failed : Message A

-- What the parent finds at the deadline: a child that is alive, or one that ended, with what it left
-- in the pipe.
pub data Child {ℓ} (A : Type ℓ) : Type ℓ where
  alive : Child A
  ended : Option (Message A) → Child A

-- `_invoke`. The parent reads only after the child has ended, so that the child stays in `send` when
-- the pipe does not hold the message; a value that cannot be pickled raises in `send`.
unfoldable pub invoke {ℓ} : {A : Type ℓ} → (A → Bool) → (A → Bool) → Call A → Child A
invoke pickles fits (ends (returned a)) =
    if pickles a then if fits a then ended (some (succeeded a)) else alive else ended (some failed)
invoke pickles fits (ends (raised e)) = ended (some failed)
invoke pickles fits works_on = alive
invoke pickles fits dies = ended none

-- After the join. Nobody holds the sending end once the child has ended, so that `poll()` is true at the
-- end of the stream too, where `recv()` raises EOFError.
abbrev pub received {ℓ} : {A : Type ℓ} → Child A → Outcome A
received alive = raised provider_timeout
received (ended none) = raised eof_error
received (ended (some (succeeded a))) = returned a
received (ended (some failed)) = raised provider_process_error

unfoldable pub run_with_deadline {ℓ} : {A : Type ℓ} → (A → Bool) → (A → Bool) → Call A → Outcome A
unfolding invoke
run_with_deadline pickles fits call = received (invoke pickles fits call)
