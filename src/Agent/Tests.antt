-- ===== src/Agent/Tests.antt =====
-- An agent with a small log file.
use fireactions.Prelude.{
  Text, codes, ◌≡◌, refl, true, false, [], none, some, ok, pos, arith, has_byte,
}
use fireactions.Scanner.Lines.{IsLine}
use fireactions.Agent.{Agent, AgentConfig, Setup, new_agent, get_logs, missing}

abbrev pub line_one : Text
line_one = codes "agent started"

abbrev pub line_two : Text
line_two = codes "runner started"

pub line_one-IsLine : IsLine 1048576 line_one
unfolding has_byte
line_one-IsLine = record { no_newline = refl; fits = omega arith }

pub line_two-IsLine : IsLine 1048576 line_two
unfolding has_byte
line_two-IsLine = record { no_newline = refl; fits = omega arith }

abbrev setup : Setup
setup = record {
  validate = λ c. none;
  make_log_directory = none;
  open_log_file = none;
  parse_level = λ l. none;
}

abbrev cfg : AgentConfig
cfg = record {
  port = 9001;
  runner_jit_config = codes "eyJh";
  hostname = codes "default-1";
  log_level = codes "info";
  shutdown_on_exit = true;
}

abbrev agent : Agent
agent = record {
  cfg = cfg;
  log_file = codes "/var/log/fireactions-agent.log";
  runner = none;
  shutting_down = false;
}

made : new_agent setup cfg ≡ ok agent
unfolding new_agent
made = refl

-- A missing log is an empty one, unless it is followed.
no_log :
    get_logs (λ k. none) 3 missing [] false (pos 0) ≡ record { sent = []; outcome = some (ok tt) }
unfolding get_logs
no_log = refl
