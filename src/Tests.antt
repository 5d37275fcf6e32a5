-- ===== src/Tests.antt =====
-- The theorems at concrete inputs.
mod CacheRuns
mod MemoryRuns
mod SessionRuns
mod LlamaRuns
mod ApiRuns
mod IoRuns
mod GgufRuns
mod ServerRuns
mod ConfigRuns
mod RuntimeRuns
mod StreamingRuns
mod ToolsRuns
