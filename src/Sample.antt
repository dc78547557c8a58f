-- ===== src/Sample.antt =====
-- An environment that meets what the node relies on, and runs.
pub mod Codec
pub mod Library
pub mod Boosted
pub mod Outside
use nat.External.{Env}
use nat.Sample.Codec.{Value}
use nat.Sample.Library.{library}
use nat.Sample.Boosted.{boosted}

abbrev pub sample : Env Value
sample = record { json = library; boost = boosted }
