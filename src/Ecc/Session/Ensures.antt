-- ===== src/Ecc/Session/Ensures.antt =====
-- What holds of the result and the session of protocols/protocols-ECC/secure_modbus/session.py
-- where an action returns, step by step.
use modbus_serial_security_p.Base.{
  ℕ, ◌≡◌, refl, sym, ap, ◌∙◌, arith, true, false, Bytes, Bool-cases, Result, Result-cases, inl, inr,
  Error, ok, Bool, subst, ◌==◌, ==_iff,
}
use modbus_serial_security_p.Base.Action.{Action, pure, lift, raise_if, ◌>>=◌, >>=-eq_ok}
use modbus_serial_security_p.Ecc.Suite.{EccSuite}
use modbus_serial_security_p.Ecc.Line.{Transport}
use modbus_serial_security_p.Ecc.Tlv.{DataMessage, encode_data_message, decode_data_message}
use modbus_serial_security_p.Ecc.Session.{
  save_context, World, SecureSession, session_of, update, send, recv,
}
use modbus_serial_security_p.Ecc.Session.Client.{send_message, recv_message}

module _ (suite : EccSuite) (transport : Transport) where
  -- What holds of the result and the session where an action returns.
  pub record Ensures {A : Type 0} (P : SecureSession → Type 0)
      (m : Action (World suite transport) A) (Q : A → SecureSession → Type 0) : Type 0 where
    pub ensured :
        (w w' : World suite transport) (a : A) → P w.session → m w ≡ (ok a, w') → Q a w'.session

  pub >>=-Ensures :
      {A B : Type 0} {P : SecureSession → Type 0} {Q : A → SecureSession → Type 0}
      {R : B → SecureSession → Type 0} (m : Action (World suite transport) A)
      (f : A → Action (World suite transport) B)
      → Ensures P m Q
      → ((a : A) → Ensures (Q a) (f a) R)
      → Ensures P (m >>= f) R
  >>=-Ensures m f k l = record {
    ensured = λ w w' b h e.
        let (a, v, e', e'') = >>=-eq_ok m f w w' b e in
        (l a).ensured v w' b (k.ensured w v a h e') e'';
  }

  pub lift-Ensures :
      {A : Type 0} {P : SecureSession → Type 0} (r : Result A)
      → Ensures P (lift r) (λ a s. P s × (r ≡ ok a))
  lift-Ensures {P = P} r = record {
    ensured = λ w w' a h e.
        (subst (λ (v : World suite transport). P v.session) (ap (λ p. p.1) e) h, ap (λ p. p.0) e);
  }

  pub pure-Ensures :
      {A : Type 0} {P : SecureSession → Type 0} (Q : A → SecureSession → Type 0) (a : A)
      → ((s : SecureSession) → P s → Q a s)
      → Ensures P (pure a) Q
  pure-Ensures {A = A} Q a k = record {
    ensured = λ w w' b h e.
        let value : a ≡ b = ground arith in
        subst (λ (x : A). Q x w'.session) value
          (subst (λ (v : World suite transport). Q a v.session) (ap (λ p. p.1) e) (k w.session h));
  }

  pub session_of-Ensures :
      {P : SecureSession → Type 0} → Ensures P (session_of suite transport) (λ x s. P s × (x ≡ s))
  session_of-Ensures {P = P} = record {
    ensured = λ w w' x h e.
        let same = ap (λ (p : Result SecureSession × World suite transport). p.1.session) e in
        let value = ap (λ (p : Result SecureSession × World suite transport). p.0) e in
        (subst P same h, cc);
  }

  pub update-Ensures :
      {P : SecureSession → Type 0} (Q : SecureSession → Type 0) (f : SecureSession → SecureSession)
      → ((s : SecureSession) → P s → Q (f s))
      → Ensures P (update suite transport f) (λ _ s. Q s)
  update-Ensures Q f k = record {
    ensured = λ w w' x h e.
        subst Q (ap (λ (p : Result (Unit {0}) × World suite transport). p.1.session) e)
          (k w.session h);
  }

  pub raise_if-Ensures :
      {P : SecureSession → Type 0} (b : Bool) (x : Error)
      → Ensures P (raise_if b x) (λ _ s. P s × (b ≡ false))
  raise_if-Ensures true x = record { ensured = λ w w' a h e. absurd cc }
  raise_if-Ensures {P = P} false x = record {
    ensured = λ w w' a h e.
        (subst (λ (v : World suite transport). P v.session) (ap (λ p. p.1) e) h, refl);
  }

  send_message-session :
      (tag : ℕ) (m : DataMessage) (w : World suite transport)
      → (send_message suite transport tag m w).1.session ≡ w.session
  unfolding send_message send
  send_message-session tag m w = elim (Result-cases (encode_data_message m)) [
    | inl (payload, r) ↦ rw r refl
    | inr (x, r) ↦ rw r refl
  ]

  pub send-Ensures :
      {P : SecureSession → Type 0} (tag : ℕ) (m : DataMessage)
      → Ensures P (send_message suite transport tag m) (λ _ s. P s)
  send-Ensures {P = P} tag m = record {
    ensured = λ w w' x h e.
        subst P
          (sym (send_message-session tag m w)
            ∙ ap (λ (p : Result (Unit {0}) × World suite transport). p.1.session) e)
          h;
  }

  -- A message that the line has given at an address.
  pub record IsReceived (address tag : ℕ) (m : DataMessage) : Type 0 where
    pub line : transport.State
    pub line' : transport.State
    pub payload : Bytes
    pub given : transport.recv_secure_apdu address line ≡ (ok (tag, payload), line')
    pub decoded : decode_data_message payload ≡ ok m

  recv_message_eq_ok :
      (P : SecureSession → Type 0) (tag : ℕ) (w w' : World suite transport) (m : DataMessage)
      → P w.session
      → recv_message suite transport tag w ≡ (ok m, w')
      → P w'.session × IsReceived w'.session.address tag m
  unfolding recv_message recv
  recv_message_eq_ok P tag w w' m h e =
      elim (Result-cases (transport.recv_secure_apdu w.session.address w.line).0) [
        | inr (x, r) ↦ absurd (ground arith)
        | inl ((t, payload), r) ↦ elim (Bool-cases (t == tag)) [
          | inr other ↦ absurd (ground arith)
          | inl same ↦ elim (Result-cases (decode_data_message payload)) [
            | inr (x, d) ↦ absurd (ground arith)
            | inl (message, d) ↦
                let whole = run message t payload r same d in
                let kept : w.session ≡ w'.session =
                  ap (λ (p : Result DataMessage × World suite transport). p.1.session)
                    (sym whole ∙ e) in
                let value : message ≡ m = ground arith in
                (
                  subst P kept h,
                  record {
                    line = w.line;
                    line' = (transport.recv_secure_apdu w.session.address w.line).1;
                    payload = payload;
                    given =
                        ap (λ (a : ℕ). transport.recv_secure_apdu a w.line)
                          (sym (ap (λ (s : SecureSession). s.address) kept))
                        ∙ (λ i. (r i, (transport.recv_secure_apdu w.session.address w.line).1))
                        ∙ ap
                            (λ (k : ℕ). (
                              ok (k, payload),
                              (transport.recv_secure_apdu w.session.address w.line).1,
                            ))
                            ((==_iff t tag).0 same);
                    decoded = d ∙ ap ok value;
                  },
                )
          ]
        ]
      ]
    where
      run :
          (message : DataMessage) (t : ℕ) (payload : Bytes)
          → (transport.recv_secure_apdu w.session.address w.line).0 ≡ ok (t, payload)
          → t == tag ≡ true
          → decode_data_message payload ≡ ok message
          → recv_message suite transport tag w ≡ (
            ok message,
            record w { line = (transport.recv_secure_apdu w.session.address w.line).1 },
          )
      run message t payload r same d = unfold recv_message recv in rw (r, same, d) refl

  pub recv-Ensures :
      {P : SecureSession → Type 0} (tag : ℕ)
      → Ensures P (recv_message suite transport tag) (λ m s. P s × IsReceived s.address tag m)
  recv-Ensures {P = P} tag = record { ensured = recv_message_eq_ok P tag }

  pub save_context-Ensures :
      (P : SecureSession → Type 0) → Ensures P (save_context suite transport) (λ _ s. P s)
  unfolding save_context
  save_context-Ensures P = record {
    ensured = λ w w' x h e.
        subst P (ap (λ (p : Result (Unit {0}) × World suite transport). p.1.session) e) h;
  }

  -- The rules for one action in front of others.
  pub lifts :
      {A B : Type 0} {P : SecureSession → Type 0} {R : B → SecureSession → Type 0} (r : Result A)
      {f : A → Action (World suite transport) B}
      → ((a : A) → Ensures (λ s. P s × (r ≡ ok a)) (f a) R)
      → Ensures P (lift r >>= f) R
  lifts r {f = f} k = >>=-Ensures (lift r) f (lift-Ensures r) k

  pub looks :
      {B : Type 0} {P : SecureSession → Type 0} {R : B → SecureSession → Type 0}
      {f : SecureSession → Action (World suite transport) B}
      → ((session : SecureSession) → Ensures (λ s. P s × (session ≡ s)) (f session) R)
      → Ensures P (session_of suite transport >>= f) R
  looks {f = f} k = >>=-Ensures (session_of suite transport) f session_of-Ensures k

  pub sends :
      {B : Type 0} {P : SecureSession → Type 0} {R : B → SecureSession → Type 0} (tag : ℕ)
      (m : DataMessage) {f : Unit {0} → Action (World suite transport) B}
      → ((u : Unit {0}) → Ensures P (f u) R)
      → Ensures P (send_message suite transport tag m >>= f) R
  sends tag m {f = f} k = >>=-Ensures (send_message suite transport tag m) f (send-Ensures tag m) k

  pub receives :
      {B : Type 0} {P : SecureSession → Type 0} {R : B → SecureSession → Type 0} (tag : ℕ)
      {f : DataMessage → Action (World suite transport) B}
      → ((m : DataMessage) → Ensures (λ s. P s × IsReceived s.address tag m) (f m) R)
      → Ensures P (recv_message suite transport tag >>= f) R
  receives tag {f = f} k = >>=-Ensures (recv_message suite transport tag) f (recv-Ensures tag) k

  pub checks :
      {B : Type 0} {P : SecureSession → Type 0} {R : B → SecureSession → Type 0} (b : Bool)
      (x : Error) {f : Unit {0} → Action (World suite transport) B}
      → ((u : Unit {0}) → Ensures (λ s. P s × (b ≡ false)) (f u) R)
      → Ensures P (raise_if b x >>= f) R
  checks b x {f = f} k = >>=-Ensures (raise_if b x) f (raise_if-Ensures b x) k

  pub updates :
      {B : Type 0} {P : SecureSession → Type 0} {R : B → SecureSession → Type 0}
      (Q : SecureSession → Type 0) (g : SecureSession → SecureSession)
      {f : Unit {0} → Action (World suite transport) B}
      → ((s : SecureSession) → P s → Q (g s))
      → ((u : Unit {0}) → Ensures Q (f u) R)
      → Ensures P (update suite transport g >>= f) R
  updates Q g {f = f} h k = >>=-Ensures (update suite transport g) f (update-Ensures Q g h) k
