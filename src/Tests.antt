-- ===== src/Tests.antt =====
-- Runs of the models on concrete inputs, and the theorems at inputs where their hypotheses hold.
mod World
mod AlertRuns
mod PoolRuns
mod QueueRuns
mod AttributeRuns
mod DispatchRuns
mod DumpRuns
mod EncryptRuns
mod StringRuns
mod TcpRuns
mod TimerRuns
mod TrafficRuns
mod LoggerRuns
mod HealthRuns
mod LoaderRuns
mod LockRuns
mod SpoolRuns
mod ClientRuns
mod SessionRuns
mod MetricRuns
mod LifecycleRuns
mod ReleaseRuns
mod JobRuns
