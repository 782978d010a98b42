-- ===== src/Blocking/Open.antt =====
-- src/blocking.rs: `open`, the loop over the states of the handshake.
use embedded_tls.Prelude.{
  ℕ, zero, suc, ◌≡◌, refl, sym, ap, subst, ◌∙◌, Bool, true, false, Option, none, some, List,
  if◌then◌else◌,
}
use embedded_tls.Exec.{
  Result, ok, err, panic, stuck, Exec, pure, gets, continue, bind-returned, on_right, ◌>>=◌, ◌>>◌,
}
use embedded_tls.Error.{TlsError}
use embedded_tls.Heapless.{Heapless}
use embedded_tls.Suite.{Suite}
use embedded_tls.Ecdh.{Ecdh}
use embedded_tls.Transport.{Transport}
use embedded_tls.Provider.{Provider}
use embedded_tls.Handshake.ClientHello.{TlsConfig}
use embedded_tls.Connection.State.{State}
use embedded_tls.Connection.Steps.{new_handshake}
use embedded_tls.Connection.Process.{Peer, Processing, process}
use embedded_tls.Connection.Process.Run.{Run, here, next, Authenticated, Run-Authenticated}
use embedded_tls.Blocking.{TlsConnection}

-- `state != State::ApplicationData`
abbrev pub is_application_data : State → Bool
is_application_data State.application_data = true
is_application_data _ = false

module _ ⦃h : Heapless⦄ (c : Suite) (e : Ecdh) (tr : Transport) (pr : Provider c e) where
  -- The loop. The server decides how many records it sends before its Finished message, so the number of rounds has no bound.
  pub run_handshake : TlsConfig → ℕ → State → Processing c e tr pr (Unit {0})
  run_handshake config zero state = if is_application_data state then pure tt else (λ w. (stuck, w))
  run_handshake config (suc rounds) state =
      let rest = process c e tr pr config state >>= run_handshake config rounds in
      if is_application_data state then pure tt else rest

  abbrev pub Opening : Type 0 → Type 0
  Opening = Exec (TlsConnection c tr × pr.verifier.State) TlsError

  abbrev pub peer : TlsConnection c tr → pr.verifier.State → Peer c e tr pr
  peer s x = record {
    transport = s.delegate;
    handshake = new_handshake c e;
    record_reader = s.record_reader;
    tx_buf = s.record_write_buf;
    key_schedule = s.key_schedule;
    provider = x;
  }

  -- the parts of the connection that the handshake was lent
  abbrev pub given_back : TlsConnection c tr → Peer c e tr pr → TlsConnection c tr
  given_back s w = record s {
    delegate = w.transport;
    record_reader = w.record_reader;
    record_write_buf = w.tx_buf;
    key_schedule = w.key_schedule;
  }

  pub on_peer : Processing c e tr pr (Unit {0}) → Opening (Unit {0})
  on_peer m (s, x) = let (r, w) = m (peer s x) in (r, (given_back s w, w.provider))

  -- where there is a verifier and a server name
  pub set_hostname : Option (List ℕ) → Bool → Opening (Unit {0})
  set_hostname (some name) true = on_right (pr.set_hostname_verification name)
  set_hostname (some _) false = pure tt
  set_hostname none _ = pure tt

  pub set_opened : Opening (Unit {0})
  set_opened (s, x) = (ok tt, (record s { opened = true }, x))

  pub open_connection : TlsConfig → ℕ → Opening (Unit {0})
  open_connection config rounds = do
    present ← gets (λ s. pr.verifier.has_verifier s.1)
    set_hostname config.server_name present
    on_peer (run_handshake config rounds State.client_hello)
    set_opened

  run_handshake-Run :
      (config : TlsConfig) (rounds : ℕ) (w v w' : Peer c e tr pr) (state : State)
      → Run c e tr pr config (State.client_hello, w) (state, v)
      → run_handshake config rounds state v ≡ (ok tt, w')
      → Run c e tr pr config (State.client_hello, w) (State.application_data, w')
  unfolding run_handshake pure
  run_handshake-Run config zero w v w' State.application_data run p =
      subst (λ u. Run c e tr pr config (State.client_hello, w) (State.application_data, u))
        (ap (λ o. o.1) p) run
  run_handshake-Run config zero w v w' _ run p = cc
  run_handshake-Run config (suc rounds) w v w' State.application_data run p =
      subst (λ u. Run c e tr pr config (State.client_hello, w) (State.application_data, u))
        (ap (λ o. o.1) p) run
  run_handshake-Run config (suc rounds) w v w' _ run p =
      let (s', u, q, p1) = bind-returned _ _ p in
      run_handshake-Run config rounds w u w' s' (next run q) p1

  set_hostname-connection :
      (name : Option (List ℕ)) (present : Bool) (s : TlsConnection c tr) (x : pr.verifier.State)
      → (set_hostname name present (s, x)).1.0 ≡ s
  unfolding set_hostname on_right pure
  set_hostname-connection (some name) true s x = refl
  set_hostname-connection (some name) false s x = refl
  set_hostname-connection none present s x = refl

  -- What an opened connection has behind it, from the connection `s` on: a run of the handshake to its
  -- last state, with an authentic Finished message of the server on the way.
  pub record Established (config : TlsConfig) (s s' : TlsConnection c tr) : Type 0 where
    pub x : pr.verifier.State
    pub w : Peer c e tr pr
    pub run : Run c e tr pr config (State.client_hello, peer s x) (State.application_data, w)
    pub authenticated : Authenticated c e tr pr config (peer s x)
    pub result : s' ≡ record (given_back s w) { opened = true }

  established :
      (config : TlsConfig) (rounds : ℕ) (s s' : TlsConnection c tr) (x : pr.verifier.State)
      → let out = run_handshake config rounds State.client_hello (peer s x) in
        out.0 ≡ ok tt → s' ≡ record (given_back s out.1) { opened = true } → Established config s s'
  established config rounds s s' x p q =
      let w = peer s x in
      let out = run_handshake config rounds State.client_hello w in
      let run =
        run_handshake-Run config rounds w w out.1 State.client_hello here
          (ap (λ r. (r, out.1)) p) in
      record {
        x = x;
        w = out.1;
        run = run;
        authenticated = Run-Authenticated c e tr pr config w run tt;
        result = q;
      }

  pub open_connection-Established :
      (config : TlsConfig) (rounds : ℕ) (s s' : TlsConnection c tr) (x x' : pr.verifier.State)
      → open_connection config rounds (s, x) ≡ (ok tt, (s', x'))
      → Established config s s'
  unfolding open_connection on_peer set_opened gets
  open_connection-Established config rounds s s' x x' p =
      let (_, t1, q1, p1) = bind-returned _ _ p in
      let (_, t2, q2, p2) = bind-returned (set_hostname config.server_name _) _ p1 in
      let (_, t3, q3, p3) =
        bind-returned (on_peer (run_handshake config rounds State.client_hello)) _ p2 in
      let same : t2.0 ≡ s =
        ap (λ o. o.1.0) (sym q2)
        ∙ set_hostname-connection config.server_name _ t1.0 t1.1
        ∙ ap (λ o. o.1.0) (sym q1) in
      subst (λ z. Established config z s') same
        (established config rounds t2.0 s' t2.1 (ap (λ o. o.0) q3)
          (sym (ap (λ o. o.1.0) p3) ∙ ap (λ o. record o.1.0 { opened = true }) (sym q3)))

  run_handshake-opened :
      (config : TlsConfig) (rounds : ℕ) (s : TlsConnection c tr) (x : pr.verifier.State)
      → (on_peer (run_handshake config rounds State.client_hello) (s, x)).1.0.opened ≡ s.opened
  unfolding on_peer
  run_handshake-opened config rounds s x = refl

  -- What an attempt to open comes to: the connection is established, or it is not opened by it.
  abbrev pub Attempted :
      TlsConfig
      → TlsConnection c tr
      → Result TlsError (Unit {0}) × (TlsConnection c tr × pr.verifier.State)
      → Type 0
  Attempted config s (ok _, (s', _)) = Established config s s'
  Attempted config s (_, (s', _)) = s'.opened ≡ s.opened

  -- Where the result is not a success, `opened` is as it was.
  abbrev Unopened :
      Bool → Result TlsError (Unit {0}) × (TlsConnection c tr × pr.verifier.State) → Type 0
  Unopened o (ok _, _) = Unit
  Unopened o (_, (s', _)) = s'.opened ≡ o

  Unopened-bind :
      {A : Type 0} (m : Opening A) (f : A → Opening (Unit {0}))
      (z : TlsConnection c tr × pr.verifier.State)
      → (m z).1.0.opened ≡ z.0.opened
      → ((a : A) (y : TlsConnection c tr × pr.verifier.State) → Unopened y.0.opened (f a y))
      → Unopened z.0.opened ((m >>= f) z)
  unfolding ◌>>=◌
  Unopened-bind {A} m f z same rest = go (m z).0 (m z).1 same
    where
      go :
          (r : Result TlsError A) (y : TlsConnection c tr × pr.verifier.State)
          → y.0.opened ≡ z.0.opened
          → Unopened z.0.opened (continue r f y)
      go (ok a) y p = subst (λ o. Unopened o (f a y)) p (rest a y)
      go (err _) y p = p
      go panic y p = p
      go stuck y p = p

  failed :
      (config : TlsConfig) (rounds : ℕ) (z : TlsConnection c tr × pr.verifier.State)
      → Unopened z.0.opened (open_connection config rounds z)
  unfolding open_connection gets set_opened
  failed config rounds z =
      Unopened-bind (gets (λ s. pr.verifier.has_verifier s.1)) _ z refl (λ present y.
        Unopened-bind (set_hostname config.server_name present) _ y
          (ap (λ t. t.opened) (set_hostname-connection config.server_name present y.0 y.1))
          (λ _ u.
            Unopened-bind (on_peer (run_handshake config rounds State.client_hello)) _ u
              (run_handshake-opened config rounds u.0 u.1) (λ _ v. tt)))

  -- Whatever the transport gives, `open` that returns without an error has run the handshake
  -- from `ClientHello` to `ApplicationData`, each step by `process`, and on the way it has
  -- received a record in the state `ServerVerify` that carries a Finished message whose verify
  -- data are the HMAC of the hash that it carries under the finished key of the server: the
  -- connection is then what the run left, and open. Where it does not return so, an open
  -- connection is no more open than before.
  pub open_connection-Attempted :
      (config : TlsConfig) (rounds : ℕ) (s : TlsConnection c tr) (x : pr.verifier.State)
      → Attempted config s (open_connection config rounds (s, x))
  open_connection-Attempted config rounds s x =
      go (open_connection config rounds (s, x)).0 (open_connection config rounds (s, x)).1 refl
    where
      go :
          (r : Result TlsError (Unit {0})) (t : TlsConnection c tr × pr.verifier.State)
          → open_connection config rounds (s, x) ≡ (r, t)
          → Attempted config s (r, t)
      go (ok _) t p = open_connection-Established config rounds s t.0 x t.1 p
      go (err _) t p = subst (Unopened s.opened) p (failed config rounds (s, x))
      go panic t p = subst (Unopened s.opened) p (failed config rounds (s, x))
      go stuck t p = subst (Unopened s.opened) p (failed config rounds (s, x))
