-- ===== src/RunSession/Processors.antt =====
-- The two protocols serve a session.
use qdplay.Processor.{Env}
use qdplay.Json.{JsonLibrary}
use qdplay.ProcessorV1.Drained as Legacy
use qdplay.ProcessorV1.Frame.{message_processor_v1}
use qdplay.ProcessorV2.Drained as Second
use qdplay.ProcessorV2.Handlers.{message_processor_v2}
use qdplay.RunSession.Returns.{Serves}

pub v1-Serves : (env : Env) → Serves (message_processor_v1 env)
v1-Serves env = record { probes = Legacy.probe-Sober env; runs = Legacy.run-Drains env }

pub v2-Serves : (env : Env) (lib : JsonLibrary) → Serves (message_processor_v2 env lib)
v2-Serves env lib = record { probes = Second.probe-Sober env lib; runs = Second.run-Drains env lib }
