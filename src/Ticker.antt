-- ===== src/Ticker.antt =====
-- ticker/ticker.go and what the three tickers share: the window, the control flags and the two
-- control channels. An instant is the number of nanoseconds since Go's zero time, so that the zero
-- `time.Time` is 0; a location is a pointer that `time.LoadLocation` returned, and UTC is 0.
pub mod Once
pub mod Iso8601
pub mod Cron
pub mod Control
pub mod Window
pub mod Any
