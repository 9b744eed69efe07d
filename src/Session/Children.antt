-- ===== src/Session/Children.antt =====
-- agent/events.rs: the progress of a child session, and what is shown of it.
use h_agent_core.Base.{
  ℕ, String, Bool, true, false, Option, none, some, ltb, ◌==◌, if◌then◌else◌, ◌+s◌, print_ℕ,
}

pub data ChildSessionStatus : Type 0 where
  queued waiting_model streaming running_tool waiting_approval_slot waiting_approval completed :
      ChildSessionStatus
  failed turn_limit timed_out cancelled running : ChildSessionStatus

pub record ChildSessionProgress : Type 0 where
  pub status : ChildSessionStatus
  pub turn : ℕ
  pub max_turns : ℕ
  pub tool : Option String

unfoldable pub is_terminal : ChildSessionStatus → Bool
is_terminal ChildSessionStatus.completed = true
is_terminal ChildSessionStatus.failed = true
is_terminal ChildSessionStatus.turn_limit = true
is_terminal ChildSessionStatus.timed_out = true
is_terminal ChildSessionStatus.cancelled = true
is_terminal _ = false

-- `status == ChildSessionStatus::Queued`.
unfoldable pub is_queued : ChildSessionStatus → Bool
is_queued ChildSessionStatus.queued = true
is_queued _ = false

unfoldable pub status_label : ChildSessionStatus → String
status_label ChildSessionStatus.queued = "排队中"
status_label ChildSessionStatus.waiting_model = "等待模型"
status_label ChildSessionStatus.streaming = "模型响应中"
status_label ChildSessionStatus.running_tool = "执行工具"
status_label ChildSessionStatus.waiting_approval_slot = "等待审批槽"
status_label ChildSessionStatus.waiting_approval = "等待审批"
status_label ChildSessionStatus.running = "运行中"
status_label ChildSessionStatus.completed = "完成"
status_label ChildSessionStatus.failed = "失败"
status_label ChildSessionStatus.turn_limit = "达到轮次上限"
status_label ChildSessionStatus.timed_out = "执行超时"
status_label ChildSessionStatus.cancelled = "已取消"

unfoldable pub wire_name : ChildSessionStatus → String
wire_name ChildSessionStatus.completed = "completed"
wire_name ChildSessionStatus.failed = "failed"
wire_name ChildSessionStatus.turn_limit = "turn_limit"
wire_name ChildSessionStatus.timed_out = "timed_out"
wire_name ChildSessionStatus.cancelled = "cancelled"
wire_name _ = "running"

unfoldable pub phase_name : ChildSessionStatus → Option String
phase_name ChildSessionStatus.queued = some "queued"
phase_name ChildSessionStatus.waiting_model = some "waiting_model"
phase_name ChildSessionStatus.streaming = some "streaming"
phase_name ChildSessionStatus.running_tool = some "running_tool"
phase_name ChildSessionStatus.waiting_approval_slot = some "waiting_approval_slot"
phase_name ChildSessionStatus.waiting_approval = some "waiting_approval"
phase_name ChildSessionStatus.running = some "running"
phase_name _ = none

abbrev tool_suffix : Option String → String
tool_suffix none = ""
tool_suffix (some name) = " ·" +s name

unfoldable pub progress_label : ChildSessionProgress → String
unfolding status_label
progress_label p =
    let turn =
      if ltb 0 p.turn
      then if p.max_turns == 0
        then " 第" +s print_ℕ p.turn +s "轮"
        else " " +s print_ℕ p.turn +s "/" +s print_ℕ p.max_turns
      else "" in
    status_label p.status +s turn +s tool_suffix p.tool
