-- ===== src/Gateway/Settings/Versions.antt =====
-- internal/gateway/settings.go: a channel's settings never go back, and are its tenant's own.
use whatsmeow_gateway.Base.{
  ◌≤◌, String, Bool, true, false, ◌&&◌, ◌||◌, ◌≡◌, ◌≢◌, ◌⊎◌, refl, inl, inr, List, [], ◌∷◌, Option,
  none, some, ◌==◌, string_Eq, ltb, lookup, lookup-insert, lookup-delete, Bool-cases, Result, ok,
  err, arith, All, ◌∙◌, ap, subst, delete,
}
use whatsmeow_gateway.Dedupe.{Answer, clean, refused, lost}
use whatsmeow_gateway.Gateway.State.{
  Settings, ChannelSession, Gateway, or_empty, tenant_for, settings_for, or_default, set_settings,
  forget_channel, clear_settings, clear_tenant,
}
use whatsmeow_gateway.Gateway.Settings.{
  SettingsCommand, settings_from, SaveResult, settings_saved, settings_stale, settings_no_session,
  SettingsError, save_found, save_settings, remove_channel, Answers, after_save, apply_settings,
  is_foreign, settings_handler,
}

-- A command that removes a channel in the name of its tenant.
abbrev pub removes : String → String → SettingsCommand → Bool
removes k tenant cmd = cmd.removed && cmd.channel_id == k && cmd.tenant_id == tenant

-- What the settings of a channel may become: they stay, or they are the command's, with a version that
-- is no lower, and the command is the tenant's.
abbrev pub Next : Gateway → String → String → SettingsCommand → Gateway → Type 0
Next g k tenant cmd after =
    (settings_for after k ≡ settings_for g k)
    ⊎ ((cmd.tenant_id ≡ tenant)
        × (settings_for after k ≡ settings_from cmd)
        × ((settings_for g k).version ≤ cmd.settings_version))

save_found-same :
    (g : Gateway) (a : Answer) (j tenant : String) (next : Settings) (row : Option ChannelSession)
    → ((save_found g a j tenant next row).0.tenants ≡ g.tenants)
      × ((save_found g a j tenant next row).0.settings ≡ g.settings)
save_found-same g clean j tenant next none = (refl, refl)
save_found-same g refused j tenant next none = (refl, refl)
save_found-same g lost j tenant next none = (refl, refl)
save_found-same g a j tenant next (some row) = (ground arith, ground arith)

module _ (k tenant : String) (g : Gateway) (known : tenant_for g k ≡ tenant) where
  -- What a step leaves of the channel.
  abbrev Keeps : SettingsCommand → Gateway → Type 0
  Keeps cmd after = (tenant_for after k ≡ tenant) × Next g k tenant cmd after

  set_settings-Keeps :
      (cmd : SettingsCommand) (saved : Gateway)
      → saved.tenants ≡ g.tenants
      → saved.settings ≡ g.settings
      → (cmd.channel_id ≡ k → cmd.tenant_id ≡ tenant)
      → (settings_for g cmd.channel_id).version ≤ cmd.settings_version
      → Keeps cmd (set_settings saved cmd.channel_id (settings_from cmd))
  unfolding set_settings
  set_settings-Keeps cmd saved t s own le = elim (Bool-cases (cmd.channel_id == k)) [
    | inl e ↦
        let same = (string_Eq.same_iff cmd.channel_id k).0 e in
        (
          rw t known,
          inr (
            own same,
            ap or_default (lookup-insert cmd.channel_id k (settings_from cmd) saved.settings)
                ∙ rw e refl,
            subst (λ j. (settings_for g j).version ≤ cmd.settings_version) same le,
          ),
        )
    | inr e ↦ (
      rw t known,
      inl (
          ap or_default (lookup-insert cmd.channel_id k (settings_from cmd) saved.settings)
          ∙ rw (e, s) refl),
    )
  ]

  after_save-Keeps :
      (cmd : SettingsCommand) (r : Gateway × Result SettingsError SaveResult)
      → r.0.tenants ≡ g.tenants
      → r.0.settings ≡ g.settings
      → (cmd.channel_id ≡ k → cmd.tenant_id ≡ tenant)
      → (settings_for g cmd.channel_id).version ≤ cmd.settings_version
      → Keeps cmd (after_save r cmd.channel_id (settings_from cmd)).0
  after_save-Keeps cmd (saved, err e) t s own le = (rw t known, inl (rw s refl))
  after_save-Keeps cmd (saved, ok settings_stale) t s own le = (rw t known, inl (rw s refl))
  after_save-Keeps cmd (saved, ok settings_saved) t s own le =
      set_settings-Keeps cmd saved t s own le
  after_save-Keeps cmd (saved, ok settings_no_session) t s own le =
      set_settings-Keeps cmd saved t s own le

  apply_settings-Keeps :
      (a : Answers) (cmd : SettingsCommand)
      → (cmd.channel_id ≡ k → cmd.tenant_id ≡ tenant)
      → Keeps cmd (apply_settings g a cmd).0
  unfolding apply_settings save_settings
  apply_settings-Keeps a cmd own =
      elim (Bool-cases (ltb cmd.settings_version (settings_for g cmd.channel_id).version)) [
        | inl h ↦ rw h (known, inl refl)
        | inr h ↦
            let (t, s) =
              save_found-same g a.saves cmd.channel_id cmd.tenant_id (settings_from cmd)
                (lookup cmd.channel_id g.sessions) in
            rw h (
              after_save-Keeps cmd
                (save_settings g a.saves cmd.channel_id cmd.tenant_id (settings_from cmd)) t s own
                (ground arith))
      ]

  -- The removal of another channel.
  remove_channel-Keeps :
      (a : Answers) (cmd : SettingsCommand)
      → (cmd.channel_id == k) ≡ false
      → Keeps cmd (remove_channel g a.logs_out a.deletes cmd.channel_id)
  unfolding remove_channel forget_channel clear_settings clear_tenant
  remove_channel-Keeps a cmd ne = elim (Bool-cases a.deletes) [
    | inl d ↦
        simp d (kept, inl (ap or_default (lookup-delete cmd.channel_id k g.settings) ∙ rw ne refl))
    | inr d ↦
        simp d (kept, inl (ap or_default (lookup-delete cmd.channel_id k g.settings) ∙ rw ne refl))
  ]
    where
      kept : or_empty (lookup k (delete cmd.channel_id g.tenants)) ≡ tenant
      kept = ap or_empty (lookup-delete cmd.channel_id k g.tenants) ∙ rw ne known

  own_tenant :
      (cmd : SettingsCommand)
      → tenant ≢ ""
      → is_foreign (tenant_for g cmd.channel_id) cmd.tenant_id ≡ false
      → cmd.channel_id ≡ k
      → cmd.tenant_id ≡ tenant
  own_tenant cmd full f e =
      let here = subst (λ j. is_foreign (tenant_for g j) cmd.tenant_id ≡ false) e f in
      let mine = subst (λ t. is_foreign t cmd.tenant_id ≡ false) known here in
      ground (arith, string_Eq.same_iff tenant "", string_Eq.same_iff tenant cmd.tenant_id)

  settings_handler-Keeps :
      (a : Answers) (cmd : SettingsCommand)
      → tenant ≢ ""
      → removes k tenant cmd ≡ false
      → Keeps cmd (settings_handler g a cmd).0
  unfolding settings_handler
  settings_handler-Keeps a cmd full kept =
      elim (Bool-cases (cmd.channel_id == "" || cmd.tenant_id == "")) [
        | inl h ↦ simp h (known, inl refl)
        | inr h ↦ elim (Bool-cases (is_foreign (tenant_for g cmd.channel_id) cmd.tenant_id)) [
          | inl f ↦ simp (h, f) (known, inl refl)
          | inr f ↦ elim (Bool-cases cmd.removed) [
            | inl r ↦ simp (h, f, r) (remove_channel-Keeps a cmd (other_channel f r))
            | inr r ↦ simp (h, f, r) (apply_settings-Keeps a cmd (own_tenant cmd full f))
          ]
        ]
      ]
    where
      other_channel :
          is_foreign (tenant_for g cmd.channel_id) cmd.tenant_id ≡ false
          → cmd.removed ≡ true
          → (cmd.channel_id == k) ≡ false
      other_channel f r = elim (Bool-cases (cmd.channel_id == k)) [
        | inl e ↦
            let mine = own_tenant cmd full f ((string_Eq.same_iff cmd.channel_id k).0 e) in
            absurd (ground (arith, string_Eq.same_iff cmd.tenant_id tenant))
        | inr e ↦ e
      ]

-- Settings commands, with what the client and the database answer to each.
unfoldable pub handle_settings : Gateway → List (Answers × SettingsCommand) → Gateway
handle_settings g [] = g
handle_settings g ((a, cmd) ∷ rest) = handle_settings (settings_handler g a cmd).0 rest

-- Whether settings are those of one of the tenant's commands.
abbrev pub IsGivenBy : String → Settings → List (Answers × SettingsCommand) → Type 0
IsGivenBy tenant settings [] = ⊥
IsGivenBy tenant settings ((a, cmd) ∷ rest) =
    ((cmd.tenant_id ≡ tenant) × (settings ≡ settings_from cmd)) ⊎ IsGivenBy tenant settings rest

-- As long as a channel's tenant does not remove it, whatever settings commands come, of any tenant
-- and for any channel, the tenant stays known, the version of the channel's settings never falls, and
-- the settings are the ones from before or those of one of the tenant's own commands.
pub settings_never_fall :
    (k tenant : String) (cmds : List (Answers × SettingsCommand)) (g : Gateway)
    → tenant_for g k ≡ tenant
    → tenant ≢ ""
    → All (λ c. removes k tenant c.1 ≡ false) cmds
    → let after = handle_settings g cmds in
      (tenant_for after k ≡ tenant)
      × ((settings_for g k).version ≤ (settings_for after k).version)
      × ((settings_for after k ≡ settings_for g k) ⊎ IsGivenBy tenant (settings_for after k) cmds)
unfolding handle_settings settings_from
settings_never_fall k tenant [] g known full kept = (known, omega arith, inl refl)
settings_never_fall k tenant ((a, cmd) ∷ rest) g known full (kept, others) =
    let next = (settings_handler g a cmd).0 in
    let (known', step) = settings_handler-Keeps k tenant g known a cmd full kept in
    let (still, up, own) = settings_never_fall k tenant rest next known' full others in
    elim step [
      | inl same ↦ (
        still,
        subst (λ s. s.version ≤ (settings_for (handle_settings next rest) k).version) same up,
        elim own [ inl e ↦ inl (e ∙ same) | inr o ↦ inr (inr o) ],
      )
      | inr (mine, from, le) ↦ (
        still,
        omega (
          arith,
          le,
          subst (λ s. s.version ≤ (settings_for (handle_settings next rest) k).version) from up,
        ),
        elim own [ inl e ↦ inr (inl (mine, e ∙ from)) | inr o ↦ inr (inr o) ],
      )
    ]
