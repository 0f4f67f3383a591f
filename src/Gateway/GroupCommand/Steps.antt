-- ===== src/Gateway/GroupCommand/Steps.antt =====
-- What one round of the handler's loop does to the ledger: facts that the properties share.
use Prim.Native.Char.{Char}
use Prim.Native.String.append
use whatsmeow_gateway.Base.{
  ℕ, String, ◌<>◌, false, Option, Result, ok, err, string_Eq, ◌==◌, ◌≡◌, refl, arith, inl, inr,
  Bool-cases, Option-cases, Result-cases, ◌≢◌, ◌∙◌, sym,
}
use whatsmeow_gateway.Amqp.RpcErrors.{GoError, RpcCode, code_text, rpc_error}
use whatsmeow_gateway.Dedupe.{ActionKey, action_key_Eq, record_action_halt}
use whatsmeow_gateway.Dedupe.Actions.{
  action_row, mark_action_done-other, mark_action_failed-other, record_action_halt-other,
}
use whatsmeow_gateway.Groups.Service.{Jid, apply}
use whatsmeow_gateway.Gateway.Pacer.{wait}
use whatsmeow_gateway.Gateway.GroupCommand.{
  key_of, fail, halt_or_give_up, conclude, take_turn, apply_group_action, parse_group_jid,
  applied_world,
}
use whatsmeow_gateway.Gateway.GroupSetup.{Command, World, ItemEnv, Run}

text_ne : (a b : String) → (a ≡ b → ⊥) → (a == b) ≡ false
text_ne a b h = elim (Bool-cases (a == b)) [
  | inl e ↦ absurd (h ((string_Eq.same_iff a b).0 e))
  | inr e ↦ e
]

cons_ne : (c : Char) (a b : String) → (String.◌∷◌ c a <> b) ≢ ""
cons_ne c a b h = let p : String.◌∷◌ c (a <> b) ≡ "" = sym (λ i. append.cons c a b i) ∙ h in cc

append_ne : (a b : String) → b ≢ "" → (a <> b) ≢ ""
append_ne String.[] b n h = n (sym (λ i. append.nil b i) ∙ h)
append_ne (String.◌∷◌ c a) b n h = cons_ne c a b h

-- The text of an rpc error is never empty.
pub rpc_error-speaks :
    (code : RpcCode) (message : String) → ((rpc_error code message).text == "") ≡ false
rpc_error-speaks code message =
    text_ne _ "" (append_ne (code_text code) (": " <> message) (cons_ne ":" " " message))

-- The row of another action after each part of a round.
abbrev Same : ActionKey → World → World → Type 0
Same k w w' = action_row w'.store k ≡ action_row w.store k

module _ (env : ItemEnv) (cmd : Command) (raw : String) (k : ActionKey)
    (ne : (key_of cmd raw == k) ≡ false) where
  fail-Same : (w : World) (e : GoError) → Same k w (fail w env cmd raw e).0
  unfolding fail
  fail-Same w e = mark_action_failed-other w.store env.mark (key_of cmd raw) k e.text ne

  halt_or_give_up-Same : (w : World) (e : GoError) → Same k w (halt_or_give_up w env cmd raw e).0
  unfolding halt_or_give_up
  halt_or_give_up-Same w e = ground (
    arith,
    record_action_halt-other w.store env.halt (key_of cmd raw) k ne,
    fail-Same (record w { store = (record_action_halt w.store env.halt (key_of cmd raw)).0 }) e,
  )

  conclude-Same :
      (w : World) (r : Result GoError (Option ℕ)) → Same k w (conclude w env cmd raw r).0
  unfolding conclude
  conclude-Same w (ok removed) =
      mark_action_done-other w.store env.mark (key_of cmd raw) k removed ne
  conclude-Same w (err e) = ground (arith, halt_or_give_up-Same w e, fail-Same w e)

  take_turn-Same :
      (w : World) (run : Run) (jid : Jid) → Same k w (take_turn w env cmd run raw jid).0
  unfolding take_turn
  take_turn-Same w run jid = elim (Option-cases (wait w.pacer cmd.channel_id env.pace)) [
    | inl e ↦ rw (e, take_turn) refl
    | inr (t, e) ↦
        rw (e, take_turn)
          (conclude-Same
            (applied_world w env cmd (apply env.client cmd.action jid cmd.params run.photo).0)
            (apply env.client cmd.action jid cmd.params run.photo).1)
  ]

  pub apply_group_action-Same :
      (parse_jid : String → Option Jid) (w : World) (run : Run)
      → Same k w (apply_group_action parse_jid w env cmd run raw).0
  unfolding apply_group_action
  apply_group_action-Same parse_jid w run = elim (Option-cases run.setup_error) [
    | inr (e, h) ↦ rw (h, apply_group_action) (fail-Same w e)
    | inl h ↦ elim (Result-cases (parse_group_jid parse_jid raw)) [
      | inl (jid, p) ↦ rw (h, apply_group_action, p) (take_turn-Same w run jid)
      | inr (e, p) ↦ rw (h, apply_group_action, p) (fail-Same w e)
    ]
  ]
