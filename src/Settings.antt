-- ===== src/Settings.antt =====
-- The settings of gateway/configstore.go, in memory and in their file. JSON is an argument: how settings
-- are written, and what reading a text makes of the settings that were there, with whether it succeeded.
pub mod Saved
mod Tests
use voiceagent.Base.{
  ℕ, ℤ, pos, negsuc, Bool, true, false, not, List, [], ◌∷◌, ◌++◌, Option, none, some, if◌then◌else◌,
  ◌==◌, take, Text, lit, same, is_empty,
}

pub record LlmConfig : Type 0 where
  pub provider : Text
  pub model : Text
  pub region : Text
  pub max_tokens : ℤ

pub record PromptConfig : Type 0 where
  pub interactive : Text
  pub copilot : Text

pub record TrunkConfig : Type 0 where
  pub name : Text
  pub address : Text
  pub port : ℤ
  pub transport : Text
  pub register : Bool
  pub caller_id : Text
  pub codecs : Text
  pub status : Text

pub record RuntimeConfig : Type 0 where
  pub llm : LlmConfig
  pub prompts : PromptConfig
  pub trunks : List TrunkConfig

pub record Json : Type 0 where
  pub encode : RuntimeConfig → Text
  pub decode : Text → RuntimeConfig → RuntimeConfig × Bool

-- The file is none before it is first written.
pub record ConfigStore : Type 0 where
  pub config : RuntimeConfig
  pub file : Option Text

-- The defaults that come from the environment.
pub record Defaults : Type 0 where
  pub claude_model : Text
  pub gcp_region : Text
  pub system_prompt : Text
  pub coach_prompt : Text

unfoldable pub default_config : Defaults → RuntimeConfig
default_config d = record {
  llm = record {
    provider = lit "anthropic-vertex";
    model = d.claude_model;
    region = d.gcp_region;
    max_tokens = pos 512;
  };
  prompts = record { interactive = d.system_prompt; copilot = d.coach_prompt };
  trunks = [];
}

-- A text that fails to parse leaves what was read of it.
unfoldable pub load_from_file : Json → ConfigStore → ConfigStore
load_from_file json cs = elim cs.file [
  | none ↦ cs
  | some text ↦ record cs { config = (json.decode text cs.config).0 }
]

unfoldable pub new_config_store : Json → Option Text → Defaults → ConfigStore
unfolding load_from_file default_config
new_config_store json file d =
    load_from_file json (record { config = default_config d; file = file })

-- What os.WriteFile comes to: all is written, the file cannot be opened, or it was emptied and the write
-- failed after some bytes.
pub data FileWrite : Type 0 where
  whole : FileWrite
  unopened : FileWrite
  torn : ℕ → FileWrite

-- The text of the settings goes to the file.
unfoldable pub save_to_file : Json → FileWrite → ConfigStore → ConfigStore × Bool
save_to_file json whole cs = (record cs { file = some (json.encode cs.config) }, true)
save_to_file json unopened cs = (cs, false)
save_to_file json (torn n) cs = (record cs { file = some (take n (json.encode cs.config)) }, false)

unfoldable pub update_llm : Json → FileWrite → LlmConfig → ConfigStore → ConfigStore × Bool
update_llm json write llm cs =
    save_to_file json write (record cs { config = record cs.config { llm = llm } })

abbrev pub or_old : Text → Text → Text
or_old new old = if is_empty new then old else new

unfoldable pub update_prompts : Json → FileWrite → PromptConfig → ConfigStore → ConfigStore × Bool
update_prompts json write prompts cs =
    let old = cs.config.prompts in
    let new : PromptConfig = record {
      interactive = or_old prompts.interactive old.interactive;
      copilot = or_old prompts.copilot old.copilot;
    } in
    save_to_file json write (record cs { config = record cs.config { prompts = new } })

unfoldable pub port_or_default : ℤ → ℤ
port_or_default (pos n) = if n == 0 then pos 5060 else pos n
port_or_default (negsuc n) = negsuc n

unfoldable pub completed : TrunkConfig → TrunkConfig
unfolding port_or_default
completed t = record t {
  port = port_or_default t.port;
  transport = or_old t.transport (lit "udp");
  codecs = or_old t.codecs (lit "PCMU,PCMA,G722");
  status = or_old t.status (lit "active");
}

unfoldable pub add_trunk : Json → FileWrite → TrunkConfig → ConfigStore → ConfigStore × Bool
unfolding completed
add_trunk json write t cs =
    save_to_file json write
      (record cs { config = record cs.config { trunks = cs.config.trunks ++ (completed t ∷ []) } })

unfoldable pub without_name : Text → List TrunkConfig → List TrunkConfig
without_name name [] = []
without_name name (t ∷ ts) =
    let rest = without_name name ts in if same t.name name then rest else t ∷ rest

unfoldable pub remove_trunk : Json → FileWrite → Text → ConfigStore → ConfigStore × Bool
unfolding without_name
remove_trunk json write name cs =
    save_to_file json write
      (record cs { config = record cs.config { trunks = without_name name cs.config.trunks } })

-- The requests that the three handlers change something for; none is a body that is not JSON, which a
-- DELETE takes for one without a name.
pub data SettingsRequest : Type 0 where
  post_llm : Option LlmConfig → SettingsRequest
  post_prompts : Option PromptConfig → SettingsRequest
  post_trunk : Option TrunkConfig → SettingsRequest
  delete_trunk : Option Text → SettingsRequest
  other_method : SettingsRequest

abbrev pub with_status : ConfigStore × Bool → ConfigStore × ℕ
with_status (cs, saved) = (cs, if saved then 200 else 500)

unfoldable pub handle_settings_change :
    Json → FileWrite → SettingsRequest → ConfigStore → ConfigStore × ℕ
handle_settings_change json write (post_llm none) cs = (cs, 400)
handle_settings_change json write (post_llm (some llm)) cs =
    with_status (update_llm json write llm cs)
handle_settings_change json write (post_prompts none) cs = (cs, 400)
handle_settings_change json write (post_prompts (some p)) cs =
    with_status (update_prompts json write p cs)
handle_settings_change json write (post_trunk none) cs = (cs, 400)
handle_settings_change json write (post_trunk (some t)) cs = with_status (add_trunk json write t cs)
handle_settings_change json write (delete_trunk none) cs =
    with_status (remove_trunk json write [] cs)
handle_settings_change json write (delete_trunk (some name)) cs =
    with_status (remove_trunk json write name cs)
handle_settings_change json write other_method cs = (cs, 405)

-- Requests in their order, each with what writing the file comes to then, and the answers.
unfoldable pub run_settings :
    Json → List (SettingsRequest × FileWrite) → ConfigStore → ConfigStore × List ℕ
run_settings json [] cs = (cs, [])
run_settings json ((req, write) ∷ reqs) cs =
    let (cs', status) = handle_settings_change json write req cs in
    let (cs'', rest) = run_settings json reqs cs' in (cs'', status ∷ rest)
