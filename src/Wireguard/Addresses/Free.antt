-- ===== src/Wireguard/Addresses/Free.antt =====
-- The address that is chosen is the lowest free one, and none is only chosen if all are taken.
use native.Mathlib.Nat.{one-le-pow}
use lvpn.Prelude.{
  ℕ, zero, suc, ◌+◌, ◌-◌, ◌≤◌, ◌<◌, String, ◌≡◌, refl, Bool, true, false, Option, none, some, List,
  [], ◌∷◌, ◌++◌, not, ◌&&◌, ◌||◌, any, ◌==◌, arith, is_some, inl, inr, Bool-cases,
}
use lvpn.Prelude.Text.{split}
use lvpn.Python.{Result, ok, err, and_then}
use lvpn.Vdp.Objects.{WgGate}
use lvpn.Wireguard.Dump.{Peer}
use lvpn.Wireguard.Addresses.{
  Network, v4, ip_network, network_size, in_network, taken_by, and_taken, taken_in, taken_by_peer,
  find_taken, is_reserved, contains, scan, free_address,
}

abbrev pub is_claim_of : ℕ → Option Network → Bool
is_claim_of ip (some (v4 address prefix)) = address == ip && prefix == 32
is_claim_of ip _ = false

-- An entry of the peer is this address alone.
abbrev pub claims : ℕ → Option String → Bool
claims ip none = false
claims ip (some texts) = any (λ text. is_claim_of ip (ip_network text)) (split b',' texts)

abbrev pub is_claimed : ℕ → List (String × Peer) → Bool
is_claimed ip peers = any (λ (_, p). claims ip p.allowed_ips) peers

abbrev pub is_unreadable : Option String → Bool
is_unreadable none = true
is_unreadable (some texts) = any (λ text. not (is_some (ip_network text))) (split b',' texts)

contains-append :
    (ip : ℕ) (xs ys : List ℕ) → contains ip (xs ++ ys) ≡ (contains ip xs || contains ip ys)
contains-append ip [] ys = refl
contains-append ip (x ∷ xs) ys = ground (arith, contains-append ip xs ys)

contains-taken_by :
    (wg : WgGate) (ip : ℕ) (n : Network)
    → in_network wg ip ≡ true
    → contains ip (taken_by wg n) ≡ is_claim_of ip (some n)
unfolding taken_by
contains-taken_by wg ip n inside = ground arith

-- What a search for taken addresses has found out about one address.
abbrev Found : ℕ → Bool → Bool → Result (List ℕ) → Type 0
Found ip claimed unreadable (ok taken) = contains ip taken ≡ claimed
Found ip claimed unreadable (err _) = unreadable ≡ true

Found-append :
    (ip : ℕ) (c c' u u' : Bool) (r q : Result (List ℕ))
    → Found ip c u r
    → Found ip c' u' q
    → Found ip (c || c') (u || u') (and_then r (λ xs. and_then q (λ ys. ok (xs ++ ys))))
Found-append ip c c' u u' (ok xs) (ok ys) f g = ground (arith, contains-append ip xs ys)
Found-append ip c c' u u' (ok xs) (err e) f g = ground arith
Found-append ip c c' u u' (err e) q f g = ground arith

and_taken-Found :
    (wg : WgGate) (ip : ℕ) (network : Option Network) (c u : Bool) (rest : Result (List ℕ))
    → in_network wg ip ≡ true
    → Found ip c u rest
    → Found ip
        (is_claim_of ip network || c)
        (not (is_some network) || u)
        (and_taken wg network rest)
unfolding and_taken
and_taken-Found wg ip none c u rest inside f = refl
and_taken-Found wg ip (some n) c u rest inside f =
    Found-append ip _ c false u (ok (taken_by wg n)) rest (contains-taken_by wg ip n inside) f

taken_in-Found :
    (wg : WgGate) (ip : ℕ) (texts : List String)
    → in_network wg ip ≡ true
    → Found ip
        (any (λ text. is_claim_of ip (ip_network text)) texts)
        (any (λ text. not (is_some (ip_network text))) texts)
        (taken_in wg texts)
unfolding taken_in
taken_in-Found wg ip [] inside = refl
taken_in-Found wg ip (t ∷ ts) inside =
    and_taken-Found wg ip (ip_network t) _ _ (taken_in wg ts) inside
      (taken_in-Found wg ip ts inside)

taken_by_peer-Found :
    (wg : WgGate) (ip : ℕ) (ips : Option String)
    → in_network wg ip ≡ true
    → Found ip (claims ip ips) (is_unreadable ips) (taken_by_peer wg ips)
unfolding taken_by_peer
taken_by_peer-Found wg ip none inside = refl
taken_by_peer-Found wg ip (some texts) inside = taken_in-Found wg ip (split b',' texts) inside

find_taken-Found :
    (wg : WgGate) (ip : ℕ) (peers : List (String × Peer))
    → in_network wg ip ≡ true
    → Found ip
        (is_claimed ip peers)
        (any (λ (_, p). is_unreadable p.allowed_ips) peers)
        (find_taken wg peers)
unfolding find_taken
find_taken-Found wg ip [] inside = refl
find_taken-Found wg ip ((_, p) ∷ ps) inside =
    Found-append ip _ _ _ _ (taken_by_peer wg p.allowed_ips) (find_taken wg ps)
      (taken_by_peer-Found wg ip p.allowed_ips inside) (find_taken-Found wg ip ps inside)

abbrev IsOut : WgGate → List ℕ → ℕ → Type 0
IsOut wg taken ip = (is_reserved wg ip || contains ip taken) ≡ true

abbrev Scanned : WgGate → List ℕ → ℕ → ℕ → Option ℕ → Type 0
Scanned wg taken n start (some ip) =
    (start ≤ ip)
    × (ip < start + n)
    × ((is_reserved wg ip || contains ip taken) ≡ false)
    × ((j : ℕ) → start ≤ j → j < ip → IsOut wg taken j)
Scanned wg taken n start none = (j : ℕ) → start ≤ j → j < start + n → IsOut wg taken j

Scanned-step :
    (wg : WgGate) (taken : List ℕ) (n start : ℕ) (r : Option ℕ)
    → IsOut wg taken start
    → Scanned wg taken n (start + 1) r
    → Scanned wg taken (suc n) start r
Scanned-step wg taken n start (some ip) out s =
    (omega (arith, s.0), omega (arith, s.1), s.2, λ j l u. ground (arith, s.3 j))
Scanned-step wg taken n start none out s = λ j l u. ground (arith, s j)

scan-Scanned :
    (wg : WgGate) (taken : List ℕ) (n start : ℕ) → Scanned wg taken n start (scan wg taken n start)
unfolding scan
scan-Scanned wg taken zero start = λ j l u. ground arith
scan-Scanned wg taken (suc n) start =
    elim (Bool-cases (is_reserved wg start || contains start taken)) [
      | inl out ↦ rw out (Scanned-step wg taken n start _ out (scan-Scanned wg taken n (start + 1)))
      | inr free ↦ rw free (ground arith)
    ]

-- What the answer says of the addresses of the network.
abbrev pub Chosen : WgGate → List (String × Peer) → Result (Option ℕ) → Type 0
Chosen wg peers (ok (some ip)) =
    (in_network wg ip ≡ true)
    × (is_reserved wg ip ≡ false)
    × (is_claimed ip peers ≡ false)
    × ((j : ℕ) → in_network wg j ≡ true → j < ip → (is_reserved wg j || is_claimed j peers) ≡ true)
Chosen wg peers (ok none) =
    (j : ℕ) → in_network wg j ≡ true → (is_reserved wg j || is_claimed j peers) ≡ true
Chosen wg peers (err _) = any (λ (_, p). is_unreadable p.allowed_ips) peers ≡ true

Chosen-Scanned :
    (wg : WgGate) (peers : List (String × Peer)) (taken : List ℕ) (r : Option ℕ)
    → ((j : ℕ) → in_network wg j ≡ true → contains j taken ≡ is_claimed j peers)
    → Scanned wg taken (network_size wg) wg.ipv4_network r
    → Chosen wg peers (ok r)
Chosen-Scanned wg peers taken (some ip) agrees s =
    let inside : in_network wg ip ≡ true = ground (arith, s.0, s.1) in
    (
      inside,
      ground (arith, s.2),
      ground (arith, s.2, agrees ip inside),
      λ j i l. ground (arith, agrees j i, s.3 j),
    )
Chosen-Scanned wg peers taken none agrees s = λ j i. ground (arith, agrees j i, s j)

Chosen-taken :
    (wg : WgGate) (peers : List (String × Peer)) (r : Result (List ℕ))
    → ((ip : ℕ)
        → in_network wg ip ≡ true
        → Found ip (is_claimed ip peers) (any (λ (_, p). is_unreadable p.allowed_ips) peers) r)
    → Chosen wg peers (and_then r (λ taken. ok (scan wg taken (network_size wg) wg.ipv4_network)))
Chosen-taken wg peers (ok taken) found =
    Chosen-Scanned wg peers taken _ found (scan-Scanned wg taken (network_size wg) wg.ipv4_network)
Chosen-taken wg peers (err e) found =
    found wg.ipv4_network (ground (arith, one-le-pow (32 - wg.prefixlen) 2 (omega arith)))

-- The address chosen for a new peer lies in the gate's network, is neither the gateway's nor the
-- first nor the last one, is no peer's own, and is the lowest such address; the answer is `None`
-- only if no such address is left, and an exception only if a peer has no allowed addresses or one
-- that is no network.
pub free_address-Chosen :
    (wg : WgGate) (peers : List (String × Peer)) → Chosen wg peers (free_address wg peers)
unfolding free_address
free_address-Chosen wg peers =
    Chosen-taken wg peers (find_taken wg peers) (λ ip inside. find_taken-Found wg ip peers inside)
