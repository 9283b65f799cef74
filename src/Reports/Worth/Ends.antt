-- ===== src/Reports/Worth/Ends.antt =====
-- The report of the net worth, `netWorthOver` of app/src/app/core/reports/aggregate.ts, as a whole.
use easy_docket.Base.Text.{Text}
use easy_docket.Reports.Worth.Amounts.{Worth}
use easy_docket.Reports.Worth.LastDays.{LastDays}
