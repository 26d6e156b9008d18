-- ===== src/Session.antt =====
-- `rtl_ais_main` of app/src/main/jni/rtl_ais_andro.c: the options, the plan of rates and lengths, and
-- the life of a run from the checks to the end.
pub mod Options
pub mod Rates
pub mod Main
mod Tests
