-- ===== src/Migrations/Versions.antt =====
-- The five revisions (alembic/versions/), each with what it calls to upgrade and to downgrade.
pub mod Initial
pub mod ScreenSnapshots
pub mod EmailTokens
pub mod DailyPrices
pub mod BranchTrades
use stock_quant_backend.Prelude.{List, [], ◌∷◌}
use stock_quant_backend.Migrations.Columns.{Revision}
use stock_quant_backend.Migrations.Versions.Initial.{rev_initial}
use stock_quant_backend.Migrations.Versions.ScreenSnapshots.{rev_screen_snapshots}
use stock_quant_backend.Migrations.Versions.EmailTokens.{rev_email_tokens}
use stock_quant_backend.Migrations.Versions.DailyPrices.{rev_daily_prices}
use stock_quant_backend.Migrations.Versions.BranchTrades.{rev_branch_trades}

-- In the order of `down_revision`.
abbrev pub revisions : List Revision
revisions =
    rev_initial ∷ rev_screen_snapshots ∷ rev_email_tokens ∷ rev_daily_prices ∷ rev_branch_trades
    ∷ []
