-- ===== src/Database/Downloads.antt =====
-- src/repositories/postgres/PgDownloadRepositories.cpp: the events of handed out plans.
use custom_game_launcher_bac.Base.{Bool, true, ◌∷◌}
use custom_game_launcher_bac.Database.{DownloadEvent, Db}

-- The answer is whether a row was inserted, and the INSERT has no clause that could refuse it.
unfoldable pub record_event : DownloadEvent → Db → Bool × Db
record_event event db = (true, record db { download_events = event ∷ db.download_events })
