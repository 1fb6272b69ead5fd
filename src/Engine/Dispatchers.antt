-- ===== src/Engine/Dispatchers.antt =====
-- What starts and wakes runs from outside: engine/startup_variables.go, timer.go,
-- event_subscriber.go, trigger_dispatcher.go and cron_dispatcher.go.
pub mod Startup
pub mod Timer
pub mod Events
pub mod Triggers
pub mod Cron
