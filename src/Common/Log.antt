-- ===== src/Common/Log.antt =====
-- `slog.Level`, and what a handler writes to the logger: a level and a message. The attributes of an
-- entry are left out, except those of the access log, which stand in Web.

pub data Level : Type 0 where
  debug info warn error : Level
