-- ===== src/Settings/Tests.antt =====
-- New prompts: a torn write, a whole one, and one that cannot be saved.
use voiceagent.Base.{Bool, true, false, List, [], ◌∷◌, ◌++◌, some, length, take, drop, Text, lit}
use voiceagent.Settings.{
  RuntimeConfig, Json, Defaults, FileWrite, whole, unopened, torn, SettingsRequest, post_prompts,
}

-- The prompts only, with the length of the first.
abbrev read_prompts : Text → RuntimeConfig → RuntimeConfig × Bool
read_prompts [] d = (d, false)
read_prompts (n ∷ text) d =
    (record d { prompts = record { interactive = take n text; copilot = drop n text } }, true)

abbrev prompts_json : Json
prompts_json = record {
  encode = λ c. length c.prompts.interactive ∷ (c.prompts.interactive ++ c.prompts.copilot);
  decode = read_prompts;
}

abbrev shipped : Defaults
shipped = record {
  claude_model = lit "m";
  gcp_region = lit "r";
  system_prompt = lit "be brief";
  coach_prompt = lit "help";
}

abbrev change : Text → SettingsRequest
change text = post_prompts (some (record { interactive = text; copilot = [] }))

abbrev changes : List (SettingsRequest × FileWrite)
changes =
    (change (lit "be old"), torn 2)
    ∷ (change (lit "be kind"), whole)
    ∷ (change (lit "be loud"), unopened)
    ∷ []
