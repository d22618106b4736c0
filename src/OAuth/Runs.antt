-- ===== src/OAuth/Runs.antt =====
-- Histories of logins: what the handlers do to the rows, in any order.
use Prim.Native.String.{String}
use manager.Prelude.{ℕ, Option, List, [], ◌∷◌, Map}
use manager.OperatorCa.Base.{Bytes}
use manager.McpAuth.Minting.{Admission, Draw}
use manager.OAuth.{State, Server, Reply}
use manager.OAuth.Authorizing.{authorize}
use manager.OAuth.Consent.{Context, Decision, consent_decide}
use manager.OAuth.Tokens.{Parsers, redeem_code}

-- The requests that change the rows, with the clock and the random bytes each one reads.
pub data Op : Type 0 where
  authorizes : ℕ → ℕ → Bytes → Map String String → Op
  consents : ℕ → Bytes → Context → String → String → Option Decision → Op
  redeems : ℕ → Draw → Option (Map String String) → Op

module _ {U : Type 0} (server : Server U) (parsers : Parsers) (admission : Admission) where
  unfoldable pub step : Op → State → State × Reply
  unfolding authorize consent_decide redeem_code
  step (authorizes now store_now entropy q) s = authorize server now store_now entropy q s
  step (consents now entropy ctx id media body) s =
      consent_decide server now entropy ctx id media body s
  step (redeems now draw form) s = redeem_code server parsers admission now draw form s

  unfoldable pub run : List Op → State → State
  run [] s = s
  run (op ∷ ops) s = run ops (step op s).0
