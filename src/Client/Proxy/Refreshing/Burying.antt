-- ===== src/Client/Proxy/Refreshing/Burying.antt =====
-- The loop of `Proxy.refresh_connections` over the entries whose processes have ended
-- (client/proxy.py).
use mathlib.Core.List.{append-nil, append_assoc, map-append}
use lvpn.Prelude.{
  ℕ, String, ◌≡◌, ◌≢◌, refl, ap, sym, subst, ◌∙◌, inl, inr, Bool, true, false, Bool-cases, Option,
  none, some, Option-cases, List, [], ◌∷◌, ◌++◌, map, not, ◌==◌, ◌||◌, select, any, any-append, All,
  All-append, All-weaken, str_eq, arith,
}
use lvpn.Prelude.Dict.{member}
use lvpn.Python.{Result, ok, err, proceed}
use lvpn.Money.{Money}
use lvpn.Session.Data.{Session, is_active}
use lvpn.Session.World.{Registry}
use lvpn.Manager.{HttpReply}
use lvpn.Client.Connections.{Connection, remove, check_alive}
use lvpn.Client.Connections as C
use lvpn.Client.Proxy.{Entry, Options, ProxyState}
use lvpn.Client.Proxy.Reached.{In, get-In}
use lvpn.Client.Proxy.Refreshing.Taking.{
  HasOwn, HasOwn-middle, take_out_middle, same_child_refl, without-none, without_gone, get-without,
  In-without,
}
use lvpn.Client.Proxy.Refreshing.{
  System, is_alive, take_out, without, reconnect, bury, refresh_entries,
}

-- One of the connections has the id or a child with it.
abbrev pub answers_for : String → List Connection → Bool
answers_for id asked = any (λ c. str_eq c.connectionid id || member id c.children) asked

none≢some : {X : Type 0} {x : X} → none ≡ some x → ⊥
none≢some h = cc

pub or_right : (a : Bool) {b : Bool} → b ≡ true → (a || b) ≡ true
or_right a h = ground arith

on_off : {b : Bool} → b ≡ true → not b ≡ true → ⊥
on_off h k = ground arith

answers_lost :
    (id : String) (c : Connection) (cs : List Connection)
    → C.get id cs ≢ none
    → C.get id (without (some c) cs) ≡ none
    → answers_for id (c ∷ []) ≡ true
answers_lost id c cs n h = elim (Bool-cases (str_eq c.connectionid id)) [
  | inl same ↦ rw same
  | inr differs ↦ elim (Bool-cases (member id c.children)) [
    | inl below ↦ rw (differs, below)
    | inr apart ↦ absurd (n (sym (get-without id c cs differs apart) ∙ h))
  ]
]

-- The id of the session that a connection was made with.
abbrev pub session_of : {A : Type 0} → (Connection → Session A) → Connection → String
session_of held c = (held c).sessionid

module _ {A : Type 0} ⦃m : Money A⦄ (opts : Options) (reg : Registry A) (sys : System)
    (held : Connection → Session A) (server : Bool → String → String → ℕ → HttpReply A) where
  module _ (IsDead : String → Type 0) where
    -- What becomes of the connections, and the connections whose sessions were asked for.
    abbrev pub Lost : ProxyState A → ProxyState A → List Connection → Type 0
    Lost v w asked =
        not (opts.auto_reconnect == 0) ≡ true
        → (id : String) → C.get id v.connections ≢ none
        → C.get id w.connections ≡ none
        → answers_for id asked ≡ true

    pub record Goes (v w : ProxyState A) : Type 0 where
      pub fewer : (c : Connection) → In c w.connections → In c v.connections
      pub gone : (id : String) → C.get id v.connections ≡ none → C.get id w.connections ≡ none
      pub asked : List Connection
      pub queued : w.inbox ≡ v.inbox ++ map (session_of held) asked
      pub theirs : All (λ c. In c v.connections × IsDead c.connectionid) asked
      pub lost : Lost v w asked

    Goes-refl : (v : ProxyState A) → Goes v v
    Goes-refl v = record {
      fewer = λ c m. m;
      gone = λ id e. e;
      asked = [];
      queued = sym (append-nil v.inbox);
      theirs = tt;
      lost = λ on id h e. absurd (h e);
    }

    Goes-trans : {u v w : ProxyState A} → Goes u v → Goes v w → Goes u w
    Goes-trans {u} {v} {w} g h = record {
      fewer = λ c m. g.fewer c (h.fewer c m);
      gone = λ id e. h.gone id (g.gone id e);
      asked = g.asked ++ h.asked;
      queued =
          h.queued
          ∙ ap (λ l. l ++ map (session_of held) h.asked) g.queued
          ∙ append_assoc u.inbox (map (session_of held) g.asked) (map (session_of held) h.asked)
          ∙ ap (λ l. u.inbox ++ l) (sym (map-append (session_of held) g.asked h.asked));
      theirs =
          All-append _ g.asked h.asked g.theirs
            (All-weaken _ _ h.asked (λ c p. (g.fewer c p.0, p.1)) h.theirs);
      lost = λ on id n e. elim (Option-cases (C.get id v.connections)) [
        | inl early ↦ rw (any-append _ g.asked h.asked) (rw (g.lost on id n early))
        | inr (c, there) ↦
            rw (any-append _ g.asked h.asked)
              (or_right _ (h.lost on id (λ none'. none≢some (sym none' ∙ there)) e))
      ];
    }

    abbrev pub Active : ProxyState A → Type 0
    Active v = (c : Connection) → In c v.connections → is_active (held c) ≡ true

    -- How the loop over the entries ends, where those before them are `done`.
    abbrev pub Looped :
        List Entry → List Entry → ProxyState A → Result (Unit {0}) × ProxyState A → Type 0
    Looped done es v (ok _, w) =
        (w.processes ≡ done ++ select (λ e. is_alive sys e.process) es)
        × All (λ e. is_alive sys e.process ≡ false → C.get e.connectionid w.connections ≡ none) es
        × Goes v w
    Looped done es v (err _, w) = ⊥

    -- How one dead entry is buried.
    abbrev Buried : Entry → ProxyState A → Result (Unit {0}) × ProxyState A → Type 0
    Buried e v (ok _, w) =
        (w.processes ≡ take_out e.process v.processes)
        × (C.get e.connectionid w.connections ≡ none)
        × Goes v w
    Buried e v (err _, w) = ⊥

    abbrev buried_state : Entry → Option Connection → ProxyState A → ProxyState A
    buried_state e found v = record v {
      processes = take_out e.process v.processes;
      connections = without found v.connections;
    }

    without-Goes :
        (e : Entry) (found : Option Connection) (v : ProxyState A)
        → Lost v (buried_state e found v) []
        → Goes v (buried_state e found v)
    without-Goes e found v lost = record {
      fewer = λ c m. In-without c found v.connections m;
      gone = λ id h. without-none id found v.connections h;
      asked = [];
      queued = sym (append-nil v.inbox);
      theirs = tt;
      lost = lost;
    }

    ask-Goes :
        (e : Entry) (c : Connection) (v : ProxyState A)
        → In c v.connections
        → IsDead c.connectionid
        → Goes v (record (buried_state e (some c) v) { inbox = v.inbox ++ session_of held c ∷ [] })
    ask-Goes e c v m d = record {
      fewer = λ b n. In-without b (some c) v.connections n;
      gone = λ id h. without-none id (some c) v.connections h;
      asked = c ∷ [];
      queued = refl;
      theirs = ((m, d), tt);
      lost = λ on id n h. answers_lost id c v.connections n h;
    }

    bury_lem :
        (e : Entry) (found : Option Connection) (v : ProxyState A)
        → IsDead e.connectionid
        → C.get e.connectionid v.connections ≡ found
        → Active v
        → Buried e v (bury opts reg sys held server e found v)
    unfolding bury reconnect
    bury_lem e none v d f active = elim (Bool-cases (opts.auto_reconnect == 0)) [
      | inl off ↦ rw off (
        refl,
        without-none e.connectionid none v.connections f,
        without-Goes e none v (λ on' id n h. absurd (n h)),
      )
      | inr on ↦ rw on (
        refl,
        without-none e.connectionid none v.connections f,
        without-Goes e none v (λ on' id n h. absurd (n h)),
      )
    ]
    bury_lem e (some c) v d f active =
        let (m, same) = get-In e.connectionid v.connections f in
        let gone : C.get e.connectionid (without (some c) v.connections) ≡ none =
          subst (λ id. C.get id (without (some c) v.connections) ≡ none) same
            (without_gone c v.connections) in
        elim (Bool-cases (opts.auto_reconnect == 0)) [
          | inl off ↦
              rw off (refl, gone, without-Goes e (some c) v (λ on id n h. absurd (on_off off on)))
          | inr on ↦ rw (on, active c m) (refl, gone, ask-Goes e c v m (subst IsDead (sym same) d))
        ]

    -- After an entry was looked at, the loop goes on with the others.
    then-Looped :
        (done : List Entry) (e : Entry) (es : List Entry) (v : ProxyState A)
        → is_alive sys e.process ≡ false
        → (q : Result (Unit {0}) × ProxyState A) → Buried e v q
        → ((w : ProxyState A)
            → w.processes ≡ take_out e.process v.processes
            → Goes v w
            → Looped done es w (refresh_entries opts reg sys held server es w))
        → Looped done (e ∷ es) v (proceed q (λ _. refresh_entries opts reg sys held server es))
    then-Looped done e es v dead (err _, w) x next = elim x [ ]
    then-Looped done e es v dead (ok _, w) (p, g, h) next =
        ended (refresh_entries opts reg sys held server es w) (next w p h)
      where
        ended :
            (r : Result (Unit {0}) × ProxyState A) → Looped done es w r → Looped done (e ∷ es) v r
        ended (ok _, u) (p', a, k) =
            (rw dead p', ((λ _. k.gone e.connectionid g), a), Goes-trans h k)
        ended (err _, u) x = x

    passed-Looped :
        (done : List Entry) (e : Entry) (es : List Entry) (v : ProxyState A)
        → is_alive sys e.process ≡ true
        → (r : Result (Unit {0}) × ProxyState A) → Looped (done ++ e ∷ []) es v r
        → Looped done (e ∷ es) v r
    passed-Looped done e es v alive (err _, u) x = x
    passed-Looped done e es v alive (ok _, u) (p, a, k) = (
      rw alive (p ∙ append_assoc done (e ∷ []) (select (λ e. is_alive sys e.process) es)),
      ((λ ended. absurd (cc)), a),
      k,
    )

    pub loop_lem :
        (done es : List Entry) (v : ProxyState A)
        → v.processes ≡ done ++ es
        → HasOwn (done ++ es)
        → Active v
        → All (λ e. is_alive sys e.process ≡ false → IsDead e.connectionid) es
        → Looped done es v (refresh_entries opts reg sys held server es v)
    unfolding refresh_entries
    loop_lem done [] v p own active dead = (p, tt, Goes-refl v)
    loop_lem done (e ∷ es) v p own active dead = elim (Bool-cases (is_alive sys e.process)) [
      | inl alive ↦ rw alive (
          passed-Looped done e es v alive (refresh_entries opts reg sys held server es v) (
            loop_lem (done ++ e ∷ []) es v (p ∙ sym (append_assoc done (e ∷ []) es))
              (subst HasOwn (sym (append_assoc done (e ∷ []) es)) own) active dead.1))
      | inr ended ↦ rw ended (
          let (apart, rest) = HasOwn-middle done e es own in
          then-Looped done e es v ended
            (bury opts reg sys held server e (C.get e.connectionid v.connections) v)
            (bury_lem e (C.get e.connectionid v.connections) v (dead.0 ended) refl active)
            (λ w q h.
              loop_lem done es w
                (q
                  ∙ ap (take_out e.process) p
                  ∙ take_out_middle done e es apart (same_child_refl sys e.process ended))
                rest (λ c m. active c (h.fewer c m)) dead.1))
    ]
