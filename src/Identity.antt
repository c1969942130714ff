-- ===== src/Identity.antt =====
-- pkg/identity: who calls, and the credential for one call of an upstream.
pub mod Tokens
pub mod Broker
use helmdeep.Base.{String, Result}
use helmdeep.Types.{Subject}

-- `Resolver`: a credential to the subject that presents it.
abbrev pub Resolver : Type 0 → Type 0
Resolver W = String → W → Result String Subject × W

-- `CredentialBroker`: the caller's credential, the upstream and the tool to a token.
abbrev pub CredentialBroker : Type 0 → Type 0
CredentialBroker W = String → String → String → W → Result String String × W
