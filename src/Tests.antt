-- ===== src/Tests.antt =====
-- Runs of the definitions and the theorems on concrete inputs.
mod GridRuns
mod ScreenRuns
mod KeyRuns
mod WireRuns
mod ServerRuns
mod SyncRuns
mod HearRuns
mod FeedRuns
mod ServeRuns
mod StartRuns
mod NetworkRuns
mod ClientRuns
mod PaintRuns
mod TerminalRuns
mod PtyRuns
