-- ===== src/Cli.antt =====
-- The commands of src/mycoagent/cli.py.
pub mod Yields
pub mod Init
pub mod Options
pub mod Specs
pub mod Start
pub mod Ctl
mod Tests
use myco_agent.Common.{String}
use myco_agent.Exec.{Result, ok, raise}

-- `typer.BadParameter`, any other exception, and `BadParameter` with the text of another exception.
pub data CliError : Type 0 where
  bad_parameter : String → CliError
  uncaught : String → CliError
  refused : CliError

abbrev pub CliM : Type 0 → Type 0
CliM A = Result CliError A

module _ {A B : Type 0} where
  infixl 10 ◌>>=◌
  abbrev pub ◌>>=◌ : CliM A → (A → CliM B) → CliM B
  ok a >>= f = f a
  raise e >>= f = raise e
