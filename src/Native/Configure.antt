-- ===== src/Native/Configure.antt =====
-- The settings of the running agent: SettingOptions and ApplySettings of
-- lib/native/conversation.go.
--
-- The step before the adapter is called changes nothing; what follows the adapter's answer is one
-- step. `settings` and `caps` are what the adapter says it has by then.
use agentapi.Prelude.{ℕ, not, ◌&&◌, ◌||◌, Option, none, some, str_eq, ◌==◌, if◌then◌else◌}
use agentapi.Native.Types.{Settings, Capabilities, capabilities_eq, merge}
use agentapi.Native.State.{Conversation, Output, tell, choose, set_settings}
use agentapi.Native.Turn.{AgentError, TurnError}

-- Why the settings of the agent cannot change.
unfoldable pub configurable : Conversation → Option TurnError
configurable c = elim c.adapter [
  | none ↦ some TurnError.not_started
  | some a ↦
      if not c.is_started
      then some TurnError.not_started
      else if not a.is_configurable || not c.caps.settings
      then some TurnError.unsupported
      else none
]

unfoldable pub end_setting_options : ℕ → Settings → Conversation → Conversation
end_setting_options gen settings c = if gen == c.generation then set_settings settings c else c

-- What the agent said of its capabilities.
unfoldable pub take_caps : Capabilities → Conversation → Conversation
take_caps caps c =
    if capabilities_eq caps c.caps then c else tell (Output.started caps) (record c { caps = caps })

-- The settings chosen, with the effort that a new model takes.
unfoldable pub chosen_with : Settings → Settings → Settings → Settings
chosen_with old s settings =
    let merged = merge old s in
    if not (str_eq s.model "") && str_eq s.effort "" && not (str_eq merged.effort "")
    then record merged { effort = settings.effort }
    else merged

unfoldable pub end_apply_settings :
    ℕ
    → Settings
    → Option AgentError
    → Settings
    → Capabilities
    → Conversation
    → Conversation × Option TurnError
end_apply_settings gen s answer settings caps c =
    let c' = set_settings settings (take_caps caps c) in
    if not (gen == c.generation)
    then (c, some (elim answer [ none ↦ TurnError.not_started | some e ↦ TurnError.agent e ]))
    else elim answer [
      | some e ↦ (c', some (TurnError.agent e))
      | none ↦ (choose (chosen_with c'.chosen s settings) c', none)
    ]
