-- ===== src/Html/Latency/Shown.antt =====
-- Which statistics of a latency test src/renderer/mod.rs shows.
use speed_cli.Float.{Float}
