-- ===== src/Mcp/Egress.antt =====
-- pkg/mcp/egress.go: no connection to a link-local address. An address is its bytes, and the tests
-- are those of net.IP.
use helmdeep.Base.{
  ℕ, String, Bool, true, false, ◌&&◌, Option, none, some, List, [], ◌∷◌, if◌then◌else◌, Result, ok,
  err, leb, length, all, ◌≡◌, refl,
}
use helmdeep.Base.Text.{◌+++◌, eqb}

abbrev pub Ip : Type 0
Ip = List ℕ

pub record Conn : Type 0 where
  pub remote_ip : Option Ip

-- `IP.To4`: four bytes, or sixteen that map them.
abbrev pub mapped : Ip → Option Ip
mapped (a ∷ b ∷ c ∷ d ∷ e ∷ f ∷ g ∷ h ∷ i ∷ j ∷ x ∷ y ∷ rest) =
    if all (λ k. eqb k 0) (a ∷ b ∷ c ∷ d ∷ e ∷ f ∷ g ∷ h ∷ i ∷ j ∷ [])
      && (eqb x 255 && (eqb y 255 && eqb (length rest) 4))
    then some rest
    else none
mapped _ = none

abbrev pub to4 : Ip → Option Ip
to4 ip = if eqb (length ip) 4 then some ip else mapped ip

-- fe80::/10.
abbrev pub is_link_local_6 : Ip → Bool
is_link_local_6 (a ∷ b ∷ rest) = eqb (length rest) 14 && (eqb a 254 && (leb 128 b && leb b 191))
is_link_local_6 _ = false

-- 169.254.0.0/16.
abbrev pub is_link_local_4 : Ip → Bool
is_link_local_4 (a ∷ b ∷ rest) = eqb a 169 && eqb b 254
is_link_local_4 _ = false

unfoldable pub is_link_local_unicast : Ip → Bool
is_link_local_unicast ip = elim (to4 ip) [
  | some v4 ↦ is_link_local_4 v4
  | none ↦ is_link_local_6 ip
]

-- `text` writes an address out. A connection that is refused is closed by `close`.
module _ {W : Type 0} (close : Conn → W → W) (text : Ip → String) where
  abbrev pub screened : String → Conn → Option Ip → W → Result String Conn × W
  screened addr conn none w = (ok conn, w)
  screened addr conn (some ip) w =
      if is_link_local_unicast ip
      then (
        err (
            "connection to "
            +++ addr
            +++ " refused: "
            +++ text ip
            +++ " is a link-local address, reserved for cloud metadata services and always blocked (doc 05-tool-gateway.md §3)"),
        close conn w,
      )
      else (ok conn, w)

  abbrev pub dialled : String → Result String Conn × W → Result String Conn × W
  dialled addr (err e, w) = (err e, w)
  dialled addr (ok conn, w) = screened addr conn conn.remote_ip w

  unfoldable pub blocked_dial :
      (String → String → W → Result String Conn × W) → String → String → W → Result String Conn × W
  unfolding is_link_local_unicast
  blocked_dial dial network addr w = dialled addr (dial network addr w)

blocks_metadata : is_link_local_unicast (169 ∷ 254 ∷ 169 ∷ 254 ∷ []) ≡ true
unfolding is_link_local_unicast
blocks_metadata = refl
