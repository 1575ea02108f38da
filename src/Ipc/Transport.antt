-- ===== src/Ipc/Transport.antt =====
-- internal/ipc/transport.go, with `UnixTransport` of internal/ipc/unix.go, and what opens and closes
-- a server and a client in internal/ipc/server.go and internal/ipc/client.go.
use yaasa_go.Prelude.{ℕ, Bool, true, false, Bytes, ◌≡◌, refl, sym, ap, ◌∙◌, if◌then◌else◌}
use yaasa_go.Result.{foreign, Result, ok, err, Error, M, ◌>>=◌, return, ok-inj, and_then}
use yaasa_go.Cli.Daemon.{Socket, listen, listen-answering}
use yaasa_go.Ipc.Preemption.{State, initial}

-- The interface `Transport`: `L` stands for its listeners, `C` for its connections, and `W` for what
-- they are part of.
pub record Transport (W L C : Type 0) : Type 0 where
  pub listen : M W L
  pub dial : M W C
  pub description : Bytes

-- A server with its listener and its controller `K`, and the state of its commands.
pub record Server (L K : Type 0) : Type 0 where
  pub listener : L
  pub controller : K
  pub state : State

pub record Client (C : Type 0) : Type 0 where
  pub conn : C

module _ {W L C : Type 0} (t : Transport W L C) where
  unfoldable pub listen_with : {K : Type 0} → K → M W (Server L K)
  listen_with c =
      t.listen >>= λ l. return (record { listener = l; controller = c; state = initial })

  unfoldable pub dial_with : M W (Client C)
  dial_with = t.dial >>= λ c. return (record { conn = c })

abbrev pub IsRefused : {A : Type 0} → Result A → Type 0
IsRefused r = (e : Error) × (r ≡ err e)

abbrev pub Succeeds : {A : Type 0} → Result A → Type 0
Succeeds {A} r = (a : A) × (r ≡ ok a)

-- The error contract that the comments of `Transport` state, where `accepts` says whether somebody
-- listens at the address.
pub record Contract {W L C : Type 0} (t : Transport W L C) (accepts : W → Bool) : Type 0 where
  pub in_use : (w : W) → accepts w ≡ true → IsRefused (t.listen w).0
  pub nobody : (w : W) → accepts w ≡ false → IsRefused (t.dial w).0
  pub reached : (w : W) → accepts w ≡ true → Succeeds (t.dial w).0
  pub opened : (w : W) (l : L) → (t.listen w).0 ≡ ok l → accepts (t.listen w).1 ≡ true

-- A listener and a connection of a Unix socket, by its path.
pub data Handle : Type 0 where
  at_path : Bytes → Handle

-- `net.DialTimeout` at a path; `refusal` is the error of the operating system where nobody answers.
abbrev dialled : ℕ → Bool → Bytes → M Socket Handle
dialled refusal b path s = (if b then ok (at_path path) else err (foreign refusal), s)

abbrev listening_at : Bytes → Result (Unit {0}) × Socket → Result Handle × Socket
listening_at path (ok _, s) = (ok (at_path path), s)
listening_at path (err e, s) = (err e, s)

unfoldable pub unix_transport : ℕ → Bytes → Transport Socket Handle Handle
unfolding listen
unix_transport refusal path = record {
  listen = λ s. listening_at path (listen s);
  dial = λ s. dialled refusal s.answering path s;
  description = path;
}

-- `Listen` and `Dial`
unfoldable pub listen_unix : {K : Type 0} → ℕ → Bytes → K → M Socket (Server Handle K)
unfolding listen_with unix_transport
listen_unix refusal path c = listen_with (unix_transport refusal path) c

unfoldable pub dial_unix : ℕ → Bytes → M Socket (Client Handle)
unfolding dial_with unix_transport
dial_unix refusal path = dial_with (unix_transport refusal path)

listening_at-answering :
    (path : Bytes) (x : Result (Unit {0}) × Socket) (l : Handle)
    → (x.0 ≡ ok tt → x.1.answering ≡ true)
    → (listening_at path x).0 ≡ ok l
    → (listening_at path x).1.answering ≡ true
listening_at-answering path (ok _, s) l k h = k refl
listening_at-answering path (err e, s) l k h = cc

-- `UnixTransport` keeps the contract of `Transport`, over a socket that anybody may have left behind:
-- `Listen` fails while a daemon answers, `Dial` fails just while none does, and after a `Listen`
-- that succeeds one does.
pub unix_transport-Contract :
    (refusal : ℕ) (path : Bytes) → Contract (unix_transport refusal path) (λ s. s.answering)
unfolding unix_transport listen
unix_transport-Contract refusal path = record {
  in_use = λ s h. rw h (_, refl);
  nobody = λ s h. rw h (_, refl);
  reached = λ s h. rw h (_, refl);
  opened = λ s l h. listening_at-answering path (listen s) l (listen-answering s) h;
}

then-return :
    {W A B : Type 0} (x : Result A × W) (f : A → B) (b : B)
    → (and_then x (λ a. return (f a))).0 ≡ ok b
    → (a : A) × (x.0 ≡ ok a) × (b ≡ f a)
then-return (ok a, w) f b h = (a, refl, sym (ok-inj (f a) b h))
then-return (err e, w) f b h = cc

then-state :
    {W A B : Type 0} (x : Result A × W) (f : A → B) → (and_then x (λ a. return (f a))).1 ≡ x.1
then-state (ok a, w) f = refl
then-state (err e, w) f = refl

then-Succeeds :
    {W A B : Type 0} (x : Result A × W) (f : A → B)
    → Succeeds x.0
    → Succeeds (and_then x (λ a. return (f a))).0
then-Succeeds (ok a, w) f h = (f a, refl)
then-Succeeds (err e, w) f (a, h) = cc

then-IsRefused :
    {W A B : Type 0} (x : Result A × W) (f : A → B)
    → IsRefused x.0
    → IsRefused (and_then x (λ a. return (f a))).0
then-IsRefused (ok a, w) f (e, h) = cc
then-IsRefused (err x, w) f h = (x, refl)

module _ {W L C : Type 0} (t : Transport W L C) (accepts : W → Bool) (k : Contract t accepts) where
  -- Over any transport that keeps the contract: when `ListenWith` succeeds, its server has no command,
  -- a client can dial it, and no second server can be opened there.
  pub listen_with-dial_with :
      {K : Type 0} (c c' : K) (w : W) (srv : Server L K)
      → (listen_with t c w).0 ≡ ok srv
      → (srv.state ≡ initial)
        × Succeeds (dial_with t (listen_with t c w).1).0
        × IsRefused (listen_with t c' (listen_with t c w).1).0
  unfolding listen_with dial_with
  listen_with-dial_with {K} c c' w srv h =
      let serve : L → Server L K = λ l. record { listener = l; controller = c; state = initial } in
      let (l, a, made) = then-return (t.listen w) serve srv h in
      let after = then-state (t.listen w) serve in
      let answers : accepts (listen_with t c w).1 ≡ true = ap accepts after ∙ k.opened w l a in
      (
        ap (λ s. s.state) made,
        then-Succeeds (t.dial (listen_with t c w).1) _ (k.reached (listen_with t c w).1 answers),
        then-IsRefused (t.listen (listen_with t c w).1) _ (k.in_use (listen_with t c w).1 answers),
      )
