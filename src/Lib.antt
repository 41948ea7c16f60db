-- ===== src/Lib.antt =====
-- Cetmix Tower, an Odoo application that manages servers: flight plans, secrets, webhooks,
-- scheduled tasks, git remotes, variables and templates of servers.
--
-- Parts and how they interact. A flight plan (cetmix_tower_server/models/cx_tower_plan.py) is a list of
-- lines, each with a command. A run of it on a server is a plan log. A line that is executable starts its
-- command, which leaves a running command log; when a command log finishes, it calls back its plan log,
-- and the plan chooses what follows by the line's actions, the exit code and its `on_error_action`. The
-- code of commands and webhooks has placeholders for secrets (cx_tower_key.py), which are replaced by
-- values before it runs, and by stars in what it returns. A request to a webhook (cetmix_tower_webhook)
-- passes an address check and an authenticator before the webhook's code runs. Scheduled tasks
-- (cx_tower_scheduled_task.py) start commands and plans from a cron job. The secrets themselves are rows of a
-- vault (cx_tower_vault_mixin.py), by model, record and field. Records are addressed by references
-- (cx_tower_reference_mixin.py), which are generated from names. Variables have values by server or for all
-- (cx_tower_variable_mixin.py), and a value may be a template over other variables. A server is created from a
-- template (cx_tower_server_template.py) and a configuration of variables; variables that are missing are
-- created, with generated references.
--
-- Prelude: shared names; Prelude/Tests: Boolean tests and the conditional; Prelude/Lists: lists over the
-- native numbers and dictionaries; Prelude/Results: code that may raise; Prelude/Int: exit codes;
-- Prelude/Text: Python's `str` as a list of code points; Prelude/TextLaws: what its methods say;
-- Prelude/Decimal: `str` of a number; Prelude/Dictionaries: association lists with texts for keys.
--
-- Engine: the flight plan engine. Paths are below cetmix_tower_server/models.
--   Engine/Records: the fields of cx_tower_plan.py, cx_tower_plan_line.py, cx_tower_plan_line_action.py,
--     cx_tower_plan_log.py and cx_tower_command_log.py that the engine reads or writes, and constants.py.
--     `World` is the database: all functions take it and return the new one.
--   Engine/Store: reading and writing rows, and the computed `is_running`.
--   Engine/Choice: `_get_next_action_state`, `_get_next_action_values`, `_is_executable_line`.
--   Engine/Run: `finish` of a plan log, `record` of a command log, `_skip`.
--   Engine/Flow: `run_command` and `_render_command` of cx_tower_server.py, `_run` of a line,
--     `_run_next_action`, `_plan_command_finished`, `_command_finished`.
--     The context key `no_command_log` is an argument of what `start` calls; what a command log calls
--     back runs without the key, since command logs are made only without it.
--   Engine/Start: `start`, `record` and `stop` of a plan log, `finish` and `stop` of a command log,
--     `_run_single`.
--   Engine/Ensures, Engine/LineOrder, Engine/Settled, Engine/NextLine, Engine/Progress,
--     Engine/Unlogged, Engine/Begin: how a plan comes to rest; Engine/LastLine, Engine/Endings: how it
--     ends; Engine/Skips: skipped lines; Engine/Stop, Engine/StopPlan: stopping.
--   Engine/Nesting: `_check_recursive_plan` of cx_tower_plan_line.py; Engine/Cycles,
--     Engine/Acyclic, Engine/SharedPlan: what it accepts and refuses.
--
-- Shell: shell commands of cx_tower_server.py. Shell/Command: `_prepare_ssh_command` and
--   `_parse_command_results`; Shell/Outcome: what holds of them.
--
-- Key: cx_tower_key.py. Key/Scan: placeholders and inline references; Key/Resolve: the value of a secret
--   and its replacement in code; Key/Spoiler: `_replace_with_spoiler`; Key/Extraction, Key/RoundTrip,
--   Key/Isolation, Key/Masking, Key/Escapes and Key/Pieces: what holds of them.
--
-- Webhook: cetmix_tower_webhook. Webhook/Address: the address check of
--   models/cx_tower_webhook_authenticator.py; Webhook/Evaluation: `authenticate`, `execute` and
--   `_run_webhook_eval_code`; Webhook/Request: controllers/main.py; Webhook/Allowlist and Webhook/Gate:
--   what holds of them.
--
-- Schedule: cx_tower_scheduled_task.py. Schedule/Tasks: reservation, runs and the next call;
--   Schedule/Reservation: what holds of them.
--
-- Git: cetmix_tower_git/models/cx_tower_git_remote.py. Git/Remote: heads and URLs for the git aggregator;
--   Git/Heads: what holds of heads.
--
-- Reference: cx_tower_reference_mixin.py. Reference/Generate: `_generate_or_fix_reference` and `_get_copied_name`;
--   Reference/Records: `create`, `write` and `copy`; Reference/Free, Reference/Laws, Reference/Batch: what
--   holds of them.
--
-- Vault: cx_tower_vault_mixin.py. Vault/Rows: `_set_secret_values`, `_get_secret_values`,
--   `_get_secret_value` and `unlink` over the rows of cx_tower_vault.py. Vault/Effect, Vault/Plan,
--   Vault/Steps and Vault/Refinement: what an assignment does to the row of one key; Vault/Values: what is
--   read; Vault/Unique, Vault/Invariant and Vault/NewKeys: ids and keys stay unique; Vault/History: sequences of
--   operations, with the abstract vault that they implement; Vault/Create: `create` with its temporary
--   identifiers; Vault/Extraction, Vault/Creation and Vault/Created: what holds of it.
--
-- Variable: cx_tower_variable_mixin.py. Variable/Resolve: `get_variable_values`, `get_global_variable_values`,
--   `_render_variable_values`, `_apply_modifiers`; Variable/Single and Variable/Recursion: what holds of them.
--
-- Template: cx_tower_server_template.py. Template/Configuration: `_validate_required_variables` and what
--   `_prepare_server_values` and `_create_new_server` do with the configuration; Template/Required,
--   Template/Merge and Template/Creation: what holds of them.
--
-- Yaml: cetmix_tower_yaml/models/cx_tower_yaml_mixin.py. Yaml/Values: `_post_process_record_values` and
--   `_post_process_yaml_dict_values` with the helpers for relational fields; Yaml/Relations and
--   Yaml/RoundTrip: what holds of them.
--
-- Examples: concrete inputs.
--
-- Fuel. `command_finished` calls itself through skipped and refused commands, each time at a later line,
-- so that the number of lines of the plan is enough fuel; running out is an error of its own that no
-- caller turns into another. `stop_plan` calls itself once through a command's `stop`, on a plan log that
-- is no longer running. The scan for placeholders moves on in each round, so that the length of the code
-- is enough. The check for
-- recursive plans calls itself once for each plan that it has not visited. A loop that looks for a free reference
-- or name has one try more than there are taken ones. The values of variables take a depth, Python's limit on
-- recursion; what depth is enough is the matter of a theorem.
--
-- Third parties are parameters: Jinja templates, `safe_eval`, `str`, `ipaddress`, `json.loads`, the clock, the
-- calendar and `create` of the ORM. Texts compare by code points; `lower` and the whitespace of `strip` are
-- those of ASCII.
--
-- Not modelled: what a command does on the server (SSH, files, Python code), since the network and the
-- evaluated code are outside; the values of variables as the engine gets them, which are a parameter there; access
-- rights, forms, notifications and the queue, which are the framework's.
pub mod Prelude
pub mod Engine
pub mod Key
pub mod Webhook
pub mod Template
pub mod Variable
pub mod Yaml
pub mod Vault
pub mod Reference
pub mod Git
pub mod Shell
pub mod Schedule
pub mod Examples
