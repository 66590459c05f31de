-- ===== src/Wireguard/Dump/RoundTrip.antt =====
-- The format of `wg show <interface> dump`, written out, and that the parser reads it back.
use mathlib.Core.List.{append-nil, append_assoc}
use lvpn.Prelude.{
  String, ◌≡◌, ◌≢◌, refl, sym, ap, ◌∙◌, false, Option, none, some, List, [], ◌∷◌, ◌++◌, map, All,
  arith, eq_iff,
}
use lvpn.Prelude.Text.{split, join, Lack, split-join, has-join}
use lvpn.Prelude.Dict.{put_fresh, keys, keys-append, member, member-append, Distinct}
use lvpn.Python.{ok}
use lvpn.Wireguard.Dump.{
  Interface, Peer, newline, tab, replace_none, read_interface, read_peer, read_peers, read_lines,
  parse_show_dump,
}

-- A missing value is printed as `(none)`.
abbrev pub print_field : Option String → String
print_field none = "(none)"
print_field (some txt) = txt

abbrev pub interface_fields : Interface → List String
interface_fields i = i.private ∷ i.public ∷ i.port ∷ i.fwmark ∷ []

abbrev pub peer_fields : Peer → List String
peer_fields p =
    p.public
    ∷ print_field p.preshared
    ∷ print_field p.endpoint
    ∷ print_field p.allowed_ips
    ∷ print_field p.latest_handshake
    ∷ print_field p.transfer_rx
    ∷ print_field p.transfer_tx
    ∷ print_field p.keepalive
    ∷ []

abbrev pub print_line : List String → String
print_line fields = join "\t" fields

-- Every line ends with a newline: the text behind the last one is empty.
abbrev pub print_dump : Interface → List Peer → String
print_dump i ps =
    join "\n"
      (print_line (interface_fields i) ∷ map (λ p. print_line (peer_fields p)) ps ++ "" ∷ [])

-- Fields without tabs and newlines, and no value that is the word for a missing one.
abbrev pub IsPlain : List String → Type 0
IsPlain fields = Lack tab fields × Lack newline fields

abbrev pub IsGiven : Option String → Type 0
IsGiven o = o ≢ some "(none)"

pub record IsPrintable (p : Peer) : Type 0 where
  pub plain : IsPlain (peer_fields p)
  pub preshared : IsGiven p.preshared
  pub endpoint : IsGiven p.endpoint
  pub allowed_ips : IsGiven p.allowed_ips
  pub latest_handshake : IsGiven p.latest_handshake
  pub transfer_rx : IsGiven p.transfer_rx
  pub transfer_tx : IsGiven p.transfer_tx
  pub keepalive : IsGiven p.keepalive

replace_none-print_field : (o : Option String) → IsGiven o → replace_none (print_field o) ≡ o
unfolding replace_none
replace_none-print_field none g = refl
replace_none-print_field (some txt) g = ground (arith, eq_iff txt "(none)")

entry : Peer → String × Peer
entry p = (p.public, p)

read_peer-print :
    (p : Peer) (peers : List (String × Peer))
    → IsPrintable p
    → member p.public (keys peers) ≡ false
    → read_peer (split tab (print_line (peer_fields p))) peers ≡ ok (peers ++ entry p ∷ [])
unfolding read_peer entry
read_peer-print p peers r fresh = rw (split-join "\t" p.public _ r.plain.0) (
    rw
      (
        replace_none-print_field p.preshared r.preshared,
        replace_none-print_field p.endpoint r.endpoint,
        replace_none-print_field p.allowed_ips r.allowed_ips,
        replace_none-print_field p.latest_handshake r.latest_handshake,
        replace_none-print_field p.transfer_rx r.transfer_rx,
        replace_none-print_field p.transfer_tx r.transfer_tx,
        replace_none-print_field p.keepalive r.keepalive,
      )
      (ap ok (put_fresh p.public p peers fresh)))

abbrev publics : List Peer → List String
publics ps = map (λ p. p.public) ps

-- None of these peers is in the dictionary yet.
abbrev AreNew : List (String × Peer) → List Peer → Type 0
AreNew peers ps = All (λ p. member p.public (keys peers) ≡ false) ps

AreNew-append :
    (p : Peer) (peers : List (String × Peer)) (ps : List Peer)
    → member p.public (publics ps) ≡ false
    → AreNew peers ps
    → AreNew (peers ++ entry p ∷ []) ps
unfolding entry
AreNew-append p peers [] other new = tt
AreNew-append p peers (q ∷ qs) other new = (
  ground (
    arith,
    keys-append peers ((p.public, p) ∷ []),
    member-append q.public (keys peers) (p.public ∷ []),
    eq_iff p.public q.public,
    eq_iff q.public p.public,
    new.0,
  ),
  AreNew-append p peers qs (ground (arith)) new.1,
)

read_peers-print :
    (ps : List Peer) (peers : List (String × Peer))
    → All IsPrintable ps
    → AreNew peers ps
    → Distinct (publics ps)
    → read_peers (map (λ p. print_line (peer_fields p)) ps ++ "" ∷ []) peers
      ≡ ok (peers ++ map entry ps)
unfolding read_peers read_peer
read_peers-print [] peers r new d = ap ok (sym (append-nil peers))
read_peers-print (p ∷ ps) peers r new d = rw (read_peer-print p peers r.0 new.0) (
    read_peers-print ps (peers ++ entry p ∷ []) r.1 (AreNew-append p peers ps d.0 new.1) d.1
    ∙ ap ok (append_assoc peers (entry p ∷ []) (map entry ps)))

AreNew-nil : (ps : List Peer) → AreNew [] ps
AreNew-nil [] = tt
AreNew-nil (p ∷ ps) = (refl, AreNew-nil ps)

Lack-lines :
    (ps : List Peer)
    → All IsPrintable ps
    → Lack newline (map (λ p. print_line (peer_fields p)) ps ++ "" ∷ [])
Lack-lines [] r = (refl, tt)
Lack-lines (p ∷ ps) r = (has-join newline "\t" (peer_fields p) refl r.0.plain.1, Lack-lines ps r.1)

-- What `wg show` prints of an interface and of peers with different keys is parsed back to them, if
-- no field has a tab or a newline and no value that is there reads `(none)`.
pub parse_show_dump-print :
    (i : Interface) (ps : List Peer)
    → IsPlain (interface_fields i)
    → All IsPrintable ps
    → Distinct (map (λ p. p.public) ps)
    → parse_show_dump (print_dump i ps)
      ≡ ok (record { iface = some i; peers = map (λ p. (p.public, p)) ps })
unfolding parse_show_dump read_lines read_interface entry
parse_show_dump-print i ps plain r d =
    let first = print_line (interface_fields i) in
    rw
      (split-join "\n" first _
        (has-join newline "\t" (interface_fields i) refl plain.1, Lack-lines ps r))
      (rw (read_peers-print ps [] r (AreNew-nil ps) d, split-join "\t" i.private _ plain.0))
