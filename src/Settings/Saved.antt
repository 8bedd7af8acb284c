-- ===== src/Settings/Saved.antt =====
-- What a restart finds of the settings of gateway/configstore.go.
use voiceagent.Base.{
  ℕ, ℤ, pos, negsuc, ◌≡◌, ◌≢◌, refl, sym, Bool, true, false, List, [], ◌∷◌, ◌++◌, Option, none,
  some, if◌then◌else◌, ◌==◌, ◌||◌, All, arith, Text, lit, is_empty, same, subst, if_elim,
}
use voiceagent.Settings.{
  TrunkConfig, RuntimeConfig, Json, ConfigStore, Defaults, load_from_file, new_config_store,
  default_config, FileWrite, whole, unopened, torn, save_to_file, update_llm, update_prompts,
  add_trunk, remove_trunk, or_old, port_or_default, completed, without_name, SettingsRequest,
  post_llm, post_prompts, post_trunk, delete_trunk, other_method, with_status,
  handle_settings_change, run_settings,
}

-- What is written of these settings reads back as they are.
abbrev pub ReadsBack : Json → Option RuntimeConfig → Defaults → Type 0
ReadsBack json none d = Unit {0}
ReadsBack json (some c) d = json.decode (json.encode c) (default_config d) ≡ (c, true)

-- The settings after the last request that was answered with 200; `old` before any.
unfoldable pub last_saved :
    Json
    → List (SettingsRequest × FileWrite)
    → ConfigStore
    → Option RuntimeConfig
    → Option RuntimeConfig
last_saved json [] cs old = old
last_saved json ((req, write) ∷ reqs) cs old =
    let after = handle_settings_change json write req cs in
    last_saved json reqs after.0 (if after.1 == 200 then some after.0.config else old)

abbrev pub is_torn : FileWrite → Bool
is_torn (torn n) = true
is_torn whole = false
is_torn unopened = false

-- Whether a write was torn since the last request that was answered with 200; one that was answered with
-- 500 is one that wrote.
unfoldable pub left_torn : Json → List (SettingsRequest × FileWrite) → ConfigStore → Bool → Bool
left_torn json [] cs before = before
left_torn json ((req, write) ∷ reqs) cs before =
    let after = handle_settings_change json write req cs in
    left_torn json reqs after.0
      (if after.1 == 200 then false else if after.1 == 500 then before || is_torn write else before)

abbrev pub written : Json → Option RuntimeConfig → Option Text
written json none = none
written json (some c) = some (json.encode c)

-- The file is as it was last written whole, if no write was torn since.
abbrev Holds : Json → Bool → Option RuntimeConfig → ConfigStore → Type 0
Holds json damaged old cs = damaged ≡ false → cs.file ≡ written json old

module _ (json : Json) (write : FileWrite) (damaged : Bool) (old : Option RuntimeConfig) where
  abbrev Kept : ConfigStore × ℕ → Type 0
  Kept after =
      Holds json
        (if after.1 == 200
          then false
          else if after.1 == 500
          then damaged || is_torn write
          else damaged)
        (if after.1 == 200 then some after.0.config else old) after.0

abbrev pub or_default : Option RuntimeConfig → Defaults → RuntimeConfig
or_default none d = default_config d
or_default (some c) d = c

-- A trunk with a port, a transport, codecs and a status.
abbrev pub Complete : TrunkConfig → Type 0
Complete t =
    (t.port ≢ pos 0)
    × ((is_empty t.transport ≡ false) × ((is_empty t.codecs ≡ false) × (is_empty t.status ≡ false)))

port_ne_zero : (p : ℤ) → port_or_default p ≢ pos 0
unfolding port_or_default
port_ne_zero (pos n) h = ground (arith, h)
port_ne_zero (negsuc n) h = cc

or_old_filled : (s t : Text) → is_empty t ≡ false → is_empty (or_old s t) ≡ false
or_old_filled [] t h = h
or_old_filled (c ∷ s) t h = refl

completed-Complete : (t : TrunkConfig) → Complete (completed t)
unfolding completed
completed-Complete t = (
  port_ne_zero t.port,
  (
    or_old_filled t.transport (lit "udp") refl,
    (
      or_old_filled t.codecs (lit "PCMU,PCMA,G722") refl,
      or_old_filled t.status (lit "active") refl,
    ),
  ),
)

All-append :
    (ts us : List TrunkConfig) → All Complete ts → All Complete us → All Complete (ts ++ us)
All-append [] us h k = k
All-append (t ∷ ts) us (h, hs) k = (h, All-append ts us hs k)

without_name-Complete :
    (name : Text) (ts : List TrunkConfig) → All Complete ts → All Complete (without_name name ts)
unfolding without_name
without_name-Complete name [] h = tt
without_name-Complete name (t ∷ ts) (h, hs) =
    if_elim (All Complete) _ _ (same t.name name) (λ _. without_name-Complete name ts hs)
      (λ _. (h, without_name-Complete name ts hs))

save_to_file-trunks :
    (json : Json) (write : FileWrite) (cs : ConfigStore)
    → (with_status (save_to_file json write cs)).0.config ≡ cs.config
unfolding save_to_file
save_to_file-trunks json whole cs = refl
save_to_file-trunks json unopened cs = refl
save_to_file-trunks json (torn n) cs = refl

abbrev AllComplete : RuntimeConfig → Type 0
AllComplete c = All Complete c.trunks

handle-Complete :
    (json : Json) (write : FileWrite) (req : SettingsRequest) (cs : ConfigStore)
    → AllComplete cs.config
    → AllComplete (handle_settings_change json write req cs).0.config
unfolding handle_settings_change update_llm update_prompts add_trunk remove_trunk
handle-Complete json write (post_llm none) cs h = h
handle-Complete json write (post_llm (some llm)) cs h =
    subst AllComplete (sym (save_to_file-trunks json write _)) h
handle-Complete json write (post_prompts none) cs h = h
handle-Complete json write (post_prompts (some p)) cs h =
    subst AllComplete (sym (save_to_file-trunks json write _)) h
handle-Complete json write (post_trunk none) cs h = h
handle-Complete json write (post_trunk (some t)) cs h =
    subst AllComplete (sym (save_to_file-trunks json write _))
      (All-append cs.config.trunks (completed t ∷ []) h (completed-Complete t, tt))
handle-Complete json write (delete_trunk none) cs h =
    subst AllComplete (sym (save_to_file-trunks json write _))
      (without_name-Complete [] cs.config.trunks h)
handle-Complete json write (delete_trunk (some name)) cs h =
    subst AllComplete (sym (save_to_file-trunks json write _))
      (without_name-Complete name cs.config.trunks h)
handle-Complete json write other_method cs h = h

run_from-Complete :
    (json : Json) (reqs : List (SettingsRequest × FileWrite)) (cs : ConfigStore)
    → AllComplete cs.config
    → AllComplete (run_settings json reqs cs).0.config
unfolding run_settings
run_from-Complete json [] cs h = h
run_from-Complete json ((req, write) ∷ reqs) cs h =
    run_from-Complete json reqs (handle_settings_change json write req cs).0
      (handle-Complete json write req cs h)

-- A gateway that starts without a file has, whatever requests come, only trunks with a port, a
-- transport, codecs and a status.
pub run_settings-Complete :
    (json : Json) (reqs : List (SettingsRequest × FileWrite)) (d : Defaults)
    → All Complete (run_settings json reqs (new_config_store json none d)).0.config.trunks
run_settings-Complete json reqs d =
    run_from-Complete json reqs (new_config_store json none d)
      (unfold new_config_store load_from_file default_config in tt)
