-- ===== src/Wallet/Serving/Adding.antt =====
-- What a part of the wallet's loop adds to the queue and to the requests (lib/wallet.py).
use mathlib.Core.List.{append-nil, append_assoc}
use lvpn.Prelude.{String, ◌≡◌, refl, sym, ap, ◌∙◌, List, [], ◌++◌, All, All-append}
use lvpn.Python.{Result, Exec, ok, err, proceed}
use lvpn.Messages.{gui_popup}
use lvpn.Wallet.{Destination, WalletState}
use lvpn.Wallet.Serving.{Letter, WalletService}

abbrev pub Order : Type 0 → Type 0
Order A = List (Destination A) × String

joined : {X : Type 0} (a b c n m : List X) → b ≡ a ++ n → c ≡ b ++ m → c ≡ a ++ (n ++ m)
joined a b c n m e f = f ∙ ap (λ (l : List _). l ++ m) e ∙ append_assoc a n m

module _ {A : Type 0} where
  abbrev pub IsPopup : Letter A → Type 0
  IsPopup (gui_popup _) = Unit
  IsPopup _ = ⊥

  -- What a call that returns adds to the queue and to what the wallet was asked for.
  abbrev pub Adds :
      {X : Type 0}
      → (X → List (Letter A) → List (Order A) → Type 0)
      → WalletService A
      → Result X × WalletService A
      → Type 0
  Adds R s (ok x, v) =
      (answers : List (Letter A)) × (sent : List (Order A)) × (v.queue ≡ s.queue ++ answers)
      × (v.wallet.sent ≡ s.wallet.sent ++ sent)
      × R x answers sent
  Adds R s (err e, v) = Unit

  abbrev pub Quiet : {X : Type 0} → X → List (Letter A) → List (Order A) → Type 0
  Quiet x answers sent = (answers ≡ []) × (sent ≡ [])

  pub Adds-proceed :
      {X Y : Type 0} (R : X → List (Letter A) → List (Order A) → Type 0)
      (T : Y → List (Letter A) → List (Order A) → Type 0) (s : WalletService A)
      (q : Result X × WalletService A) (f : X → Exec (WalletService A) Y)
      → Adds R s q
      → ((x : X) (v : WalletService A) (bs : List (Letter A)) (ts : List (Order A))
          → R x bs ts
          → Adds (λ y cs us. T y (bs ++ cs) (ts ++ us)) v (f x v))
      → Adds T s (proceed q f)
  Adds-proceed R T s (err e, v) f h k = tt
  Adds-proceed {Y = Y} R T s (ok x, v) f (bs, ts, e, g, r) k = go (f x v) (k x v bs ts r)
    where
      go :
          (p : Result Y × WalletService A)
          → Adds (λ y cs us. T y (bs ++ cs) (ts ++ us)) v p
          → Adds T s p
      go (err d, u) h = tt
      go (ok y, u) (cs, us, d, c, h) = (
        bs ++ cs,
        ts ++ us,
        joined s.queue v.queue u.queue bs cs e d,
        joined s.wallet.sent v.wallet.sent u.wallet.sent ts us g c,
        h,
      )

  -- A call that leaves the queue and the wallet bs they are.
  abbrev pub Untouched : {X : Type 0} → WalletService A → Result X × WalletService A → Type 0
  Untouched s (r, v) = (v.queue ≡ s.queue) × (v.wallet ≡ s.wallet)

  pub Untouched-proceed :
      {X Y : Type 0} (s : WalletService A) (q : Result X × WalletService A)
      (f : X → Exec (WalletService A) Y)
      → Untouched s q
      → ((x : X) (v : WalletService A) → Untouched v (f x v))
      → Untouched s (proceed q f)
  Untouched-proceed s (err e, v) f h k = h
  Untouched-proceed s (ok x, v) f (a, b) k = let (c, d) = k x v in (c ∙ a, d ∙ b)

  pub Untouched-Quiet :
      {X : Type 0} (s : WalletService A) (q : Result X × WalletService A)
      → Untouched s q
      → Adds Quiet s q
  Untouched-Quiet s (err e, v) h = tt
  Untouched-Quiet s (ok x, v) (a, b) = (
    [],
    [],
    a ∙ sym (append-nil s.queue),
    ap (λ (w : WalletState A). w.sent) b ∙ sym (append-nil s.wallet.sent),
    (refl, refl),
  )

  -- A call that may show messages to the user.
  abbrev pub Pops : {X : Type 0} → WalletService A → Result X × WalletService A → Type 0
  Pops s (r, v) =
      (bs : List (Letter A)) × (v.queue ≡ s.queue ++ bs)
      × All IsPopup bs
      × (v.wallet.sent ≡ s.wallet.sent)

  pub Pops-proceed :
      {X Y : Type 0} (s : WalletService A) (q : Result X × WalletService A)
      (f : X → Exec (WalletService A) Y)
      → Pops s q
      → ((x : X) (v : WalletService A) → Pops v (f x v))
      → Pops s (proceed q f)
  Pops-proceed s (err e, v) f h k = h
  Pops-proceed s (ok x, v) f (bs, e, a, b) k =
      let (cs, d, c, g) = k x v in
      (
        bs ++ cs,
        joined s.queue v.queue (f x v).1.queue bs cs e d,
        All-append IsPopup bs cs a c,
        g ∙ b,
      )
