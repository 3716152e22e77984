-- ===== src/Domain/Budget.antt =====
-- crates/kesharon-domain/src/budget.rs. The amounts are u64 values, and the number of tools is a u16.
use kesharon.Prelude.{ℕ, ◌||◌, Option, none, some, ◌==◌, if◌then◌else◌, Result, ok, err}
use kesharon.Domain.Task.Error.{TaskError, invalid_resource_budget}

pub record ResourceBudget : Type 0 where
  pub max_memory_bytes : ℕ
  pub max_disk_write_bytes : ℕ
  pub max_concurrent_tools : ℕ
  pub max_prompt_tokens : Option ℕ
  pub max_completion_tokens : Option ℕ
  pub max_cost_micros : Option ℕ

-- `ResourceBudget::new`
unfoldable pub new : ℕ → ℕ → ℕ → Result ResourceBudget TaskError
new memory disk tools =
    if memory == 0 || disk == 0 || tools == 0
    then err invalid_resource_budget
    else ok (record {
      max_memory_bytes = memory;
      max_disk_write_bytes = disk;
      max_concurrent_tools = tools;
      max_prompt_tokens = none;
      max_completion_tokens = none;
      max_cost_micros = none;
    })

unfoldable pub with_token_limits : ResourceBudget → ℕ → ℕ → ℕ → Result ResourceBudget TaskError
with_token_limits budget prompt completion cost =
    if prompt == 0 || completion == 0 || cost == 0
    then err invalid_resource_budget
    else ok (record budget {
      max_prompt_tokens = some prompt;
      max_completion_tokens = some completion;
      max_cost_micros = some cost;
    })
