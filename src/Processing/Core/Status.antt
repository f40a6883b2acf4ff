-- ===== src/Processing/Core/Status.antt =====
-- core/execution_status.py
use modern_data_platform.Prelude.{Bool, true, false}

pub data ExecutionStatus : Type 0 where
  pending running completed failed cancelled skipped timeout retrying : ExecutionStatus

abbrev pub is_finished : ExecutionStatus → Bool
is_finished completed = true
is_finished failed = true
is_finished cancelled = true
is_finished skipped = true
is_finished timeout = true
is_finished _ = false

abbrev pub is_success : ExecutionStatus → Bool
is_success completed = true
is_success _ = false

abbrev pub is_failure : ExecutionStatus → Bool
is_failure failed = true
is_failure timeout = true
is_failure _ = false

abbrev pub can_retry : ExecutionStatus → Bool
can_retry failed = true
can_retry timeout = true
can_retry _ = false
