-- ===== src/Scheduler/Outgoing/Authentic.antt =====
-- A stamped hop: its receiver holds what it carries, and can reply to its sender.
use bytecode_vm.Prelude.{
  ℕ, zero, suc, ◌≡◌, ◌≢◌, ◌⊎◌, inl, inr, refl, sym, ◌∙◌, ap, subst, Bool, true, false, ◌==◌, ==_iff,
  if◌then◌else◌, none, some, arith,
}
use bytecode_vm.Prelude.Maps.{nat_key, get}
use bytecode_vm.Prelude.Result.{Result, ok, err}
use bytecode_vm.Bytecode.Value.{Value, Header, Message, cap_id_none, authenticate}
use bytecode_vm.Bytecode.Cap.{Cap, flow, send_right}
use bytecode_vm.Vm.Registers.{fresh_id}
use bytecode_vm.Scheduler.Error.{RuntimeError}
use bytecode_vm.Scheduler.CapTable.{
  Capability, CapError, CapTable, Draws, resolve, narrowed, grant_narrowed, attenuate, delegate_as,
  delegate, mint_or_reuse,
}
use bytecode_vm.Scheduler.CapTable.Grant.{grant-Granting}
use bytecode_vm.Scheduler.CapTable.Reply.{mint_or_reuse-stable}
use bytecode_vm.Scheduler.CapTable.Keeps.{mint_or_reuse-keeps, granted-entry}
use bytecode_vm.Scheduler.Outgoing.{
  as_cap_value, in_message, reissue_caps_in_value, request_id_or, with_reply, with_payload,
  authenticate_outgoing_message,
}

-- A token of a flow, and the capabilities in a value that a flow holds, nested ones too.
abbrev pub Holds : CapTable → ℕ → ℕ → Type 0
Holds t holder id = (entry : Capability) × (get id t.entries ≡ some entry) × (entry.holder ≡ holder)

unfoldable pub HoldsCaps : CapTable → ℕ → Value → Type 0
HoldsCaps t holder (Value.cap id) = (id ≡ cap_id_none) ⊎ Holds t holder id
HoldsCaps t holder (Value.message h payload) = HoldsCaps t holder payload
HoldsCaps t holder other = Unit {0}

-- A table without an entry under the null token.
abbrev pub HasNoNull : CapTable → Type 0
HasNoNull t = get cap_id_none t.entries ≡ none

grant_narrowed-Holds :
    (draws : Draws) (t u : CapTable) (holder id : ℕ) (r : Result CapError Cap)
    → HasNoNull t
    → grant_narrowed draws t holder r ≡ (ok id, u)
    → Holds u holder id × HasNoNull u
grant_narrowed-Holds draws t u holder id (err e) n h = cc
grant_narrowed-Holds draws t u holder id (ok cap) n h =
    let (found, no_null) =
      granted-entry t u (record { holder = holder; cap = cap }) id _
        (grant-Granting draws t holder cap) h n in
    ((record { holder = holder; cap = cap }, found, refl), no_null)

delegate_as-Holds :
    (draws : Draws) (t u : CapTable) (id from_holder to_holder new : ℕ)
    (r : Result CapError Capability)
    → HasNoNull t
    → delegate_as draws t id from_holder to_holder r ≡ (ok new, u)
    → Holds u to_holder new × HasNoNull u
unfolding attenuate
delegate_as-Holds draws t u id from_holder to_holder new (err e) n h = cc
delegate_as-Holds draws t u id from_holder to_holder new (ok src) n h =
    grant_narrowed-Holds draws t u to_holder new
      (narrowed t id from_holder src.cap.rights src.cap.native_mask) n h

as_cap_value-HoldsCaps :
    (u : CapTable) (holder : ℕ) (v : Value) (r : Result CapError ℕ × CapTable)
    → ((new : ℕ) (w : CapTable) → r ≡ (ok new, w) → Holds w holder new × HasNoNull w)
    → as_cap_value r ≡ (ok v, u)
    → HoldsCaps u holder v × HasNoNull u
unfolding HoldsCaps
as_cap_value-HoldsCaps u holder v (err e, w) held h = cc
as_cap_value-HoldsCaps u holder v (ok new, w) held h =
    let (holds, no_null) = held new w refl in
    let same : Value.cap new ≡ v = cc h in
    let table : w ≡ u = cc h in
    (
      subst (HoldsCaps u holder) same (inr (subst (λ x. Holds x holder new) table holds)),
      subst HasNoNull table no_null,
    )

in_message-HoldsCaps :
    (u : CapTable) (holder : ℕ) (head : Header) (v : Value) (r : Result CapError Value × CapTable)
    → ((p : Value) → r ≡ (ok p, u) → HoldsCaps u holder p × HasNoNull u)
    → in_message head r ≡ (ok v, u)
    → HoldsCaps u holder v × HasNoNull u
unfolding HoldsCaps
in_message-HoldsCaps u holder head v (err e, w) held h = cc
in_message-HoldsCaps u holder head v (ok p, w) held h =
    let (holds, no_null) = held p (cc h) in
    let same : Value.message head p ≡ v = cc h in (subst (HoldsCaps u holder) same holds, no_null)

plain-HoldsCaps :
    (t u : CapTable) (holder : ℕ) (v w : Value)
    → HoldsCaps t holder v
    → HasNoNull t
    → ◌≡◌ {A = Result CapError Value × CapTable} (ok v, t) (ok w, u)
    → HoldsCaps u holder w × HasNoNull u
plain-HoldsCaps t u holder v w holds n h =
    let same : v ≡ w = cc h in
    let table : t ≡ u = cc h in
    (
      subst (HoldsCaps u holder) same (subst (λ x. HoldsCaps x holder v) table holds),
      subst HasNoNull table n,
    )

reissue-HoldsCaps :
    (draws : Draws) (t u : CapTable) (sender recipient : ℕ) (v w : Value)
    → HasNoNull t
    → reissue_caps_in_value draws t sender recipient v ≡ (ok w, u)
    → HoldsCaps u recipient w × HasNoNull u
unfolding reissue_caps_in_value delegate HoldsCaps
reissue-HoldsCaps draws t u sender recipient (Value.cap id) w n h =
    at_null (id == cap_id_none) refl h
  where
    at_null :
        (b : Bool)
        → id == cap_id_none ≡ b
        → (if b
            then (ok (Value.cap id), t)
            else as_cap_value (delegate draws t id sender recipient))
          ≡ (ok w, u)
        → HoldsCaps u recipient w × HasNoNull u
    at_null true e k =
        plain-HoldsCaps t u recipient (Value.cap id) w (inl ((==_iff id cap_id_none).0 e)) n k
    at_null false e k =
        as_cap_value-HoldsCaps u recipient w (delegate draws t id sender recipient)
          (λ new x. delegate_as-Holds draws t x id sender recipient new (resolve t id sender 0) n) k
reissue-HoldsCaps draws t u sender recipient (Value.message head p) w n h =
    in_message-HoldsCaps u recipient head w (reissue_caps_in_value draws t sender recipient p)
      (λ q. reissue-HoldsCaps draws t u sender recipient p q n) h
reissue-HoldsCaps draws t u sender recipient v w n h = plain-HoldsCaps t u recipient v w tt n h

HoldsCaps-kept :
    (t u : CapTable) (holder : ℕ) (v : Value)
    → ((j : ℕ) (e : Capability) → get j t.entries ≡ some e → get j u.entries ≡ some e)
    → HoldsCaps t holder v
    → HoldsCaps u holder v
unfolding HoldsCaps
HoldsCaps-kept t u holder (Value.cap id) keeps (inl null) = inl null
HoldsCaps-kept t u holder (Value.cap id) keeps (inr (e, found, held)) =
    inr (e, keeps id e found, held)
HoldsCaps-kept t u holder (Value.message head p) keeps h = HoldsCaps-kept t u holder p keeps h
HoldsCaps-kept t u holder v keeps h = tt

-- What is true of a message that the scheduler stamped.
pub record IsAuthentic (u : CapTable) (sender recipient : ℕ) (m : Message) : Type 0 where
  pub is_from : m.0.sender ≡ sender
  pub has_id : m.0.request_id ≢ 0
  pub can_reply :
      (entry : Capability) × (resolve u m.0.reply_cap recipient send_right ≡ ok entry)
      × (entry.cap.target ≡ flow sender)
  pub holds_caps : HoldsCaps u recipient m.1

request_id_or-nonzero : (request_id next : ℕ) → (request_id_or request_id next).0 ≢ 0
unfolding fresh_id
request_id_or-nonzero zero zero = λ e. omega (arith, e)
request_id_or-nonzero zero (suc n) = λ e. omega (arith, e)
request_id_or-nonzero (suc r) next = λ e. grind (arith, e)

with_reply-IsAuthentic :
    (draws : Draws) (t u : CapTable) (sender recipient : ℕ) (head : Header) (payload : Value)
    (m : Message) (r : Result RuntimeError ℕ × CapTable)
    → mint_or_reuse draws t recipient sender send_right ≡ r
    → head.request_id ≢ 0
    → HoldsCaps t recipient payload
    → HasNoNull t
    → with_reply sender (head, payload) r ≡ (ok m, u)
    → IsAuthentic u sender recipient m
unfolding authenticate
with_reply-IsAuthentic draws t u sender recipient head payload m (err e, w) minted id holds n h = cc
with_reply-IsAuthentic draws t u sender recipient head payload m (ok reply, w) minted id holds n h =
    let (replies, _) =
      mint_or_reuse-stable draws draws t w recipient sender send_right reply n minted in
    let table : w ≡ u = cc h in
    let same : authenticate (head, payload) sender reply ≡ m = cc h in
    let stamped : IsAuthentic w sender recipient (authenticate (head, payload) sender reply) =
      record {
        is_from = refl;
        has_id = id;
        can_reply = replies;
        holds_caps =
            HoldsCaps-kept t w recipient payload
              (λ j e k.
                ap (λ (p : Result RuntimeError ℕ × CapTable). get j p.1.entries) (sym minted)
                ∙ mint_or_reuse-keeps draws t recipient sender send_right j e k)
              holds;
      } in
    subst (λ x. IsAuthentic x sender recipient m) table
      (subst (IsAuthentic w sender recipient) same stamped)

with_payload-IsAuthentic :
    (draws : Draws) (u : CapTable) (sender recipient : ℕ) (head : Header) (m : Message)
    (r : Result CapError Value × CapTable)
    → head.request_id ≢ 0
    → ((p : Value) (t : CapTable) → r ≡ (ok p, t) → HoldsCaps t recipient p × HasNoNull t)
    → with_payload draws sender recipient head r ≡ (ok m, u)
    → IsAuthentic u sender recipient m
with_payload-IsAuthentic draws u sender recipient head m (err e, t) id held h = cc
with_payload-IsAuthentic draws u sender recipient head m (ok p, t) id held h =
    let (holds, no_null) = held p t refl in
    with_reply-IsAuthentic draws t u sender recipient head p m _ refl id holds no_null h

-- In a table without an entry under the null token, a hop that is stamped names its true sender and
-- has a request id; its reply capability resolves for the receiver, for sending, to the sender; and
-- the receiver holds every capability in its payload, however deep.
pub authenticate_outgoing_message-IsAuthentic :
    (draws reply_draws : Draws) (t u : CapTable) (sender recipient next next' : ℕ) (m m' : Message)
    → get cap_id_none t.entries ≡ none
    → authenticate_outgoing_message draws reply_draws t sender recipient m next ≡ (ok m', u, next')
    → IsAuthentic u sender recipient m'
unfolding authenticate_outgoing_message
authenticate_outgoing_message-IsAuthentic draws reply_draws t u sender recipient next next'
      (head, payload) m' n h =
    with_payload-IsAuthentic reply_draws u sender recipient
      (record head { request_id = (request_id_or head.request_id next).0 }) m'
      (reissue_caps_in_value draws t sender recipient payload)
      (request_id_or-nonzero head.request_id next)
      (λ p x. reissue-HoldsCaps draws t x sender recipient payload p n) (cc h)
