-- ===== src/Lib.antt =====
-- Hot Take, a framework for agents that call tools: its core in Go, modelled and verified.
--
-- A run of the runtime selects a skill for the user's input, resolves the capabilities that the skill
-- requires to tools, and then asks a model for turns. A turn is an answer, or a batch of tool calls, which
-- the runtime authorises, executes and reports back. Every transition is published as an event.
--
-- The files and the code that they model:
--   Base               Go's strings as lists of bytes, maps as association lists, sorting, results, integers.
--   Tool               tool/tool.go; Tool/Registry: tool/registry.go (Register, Get, Definitions).
--   Capability         capability/registry.go (NewRegistry, Resolve, validateName); Capability/Orders: that it
--                      does not depend on the order in which Go visits a map.
--   Permission         permission/permission.go (NewPolicy, Authorize, AllowAll, DenyAll).
--   Skill              skill/skill.go (NewRegistry, Select, validate).
--   Event, Provider    event/event.go and provider/provider.go, the data exchanged with sinks and models.
--   Agent              agent/runtime.go (Config, NewRuntime). Agent/Effects has the state of a run, its errors
--                      and its actions, Agent/Selection resolveTools and the check of a batch's scope,
--                      Agent/Loop the method Run.
--   Project            project/loader.go: the validation of manifests and plugins. Project/Files has
--                      resolveWithin, readProjectFile and readJSON, Project/Load the method Load.
--   Mcp                mcp/tool.go: remote tools (NewRemoteTool, Execute) and their names. Mcp/Schema is the
--                      validation in mcp/schema.go. Of mcp/client.go, Mcp/Values has the headers of a call,
--                      Mcp/Events decodeResponse and decodeEventStream, Mcp/Client New and the state,
--                      Mcp/Client/Request the method request, Mcp/Client/Listing ListTools and
--                      Mcp/Client/Calling CallTool.
--   Openai             providers/openai/client.go: New. Openai/Encode has encodeItems and encodeTools,
--                      Openai/Decode decodeState and decodeTurn, Openai/Generate the method Generate.
--   Http, Json         what these clients use of net/http and of encoding/json.
--   Approval           cmd/hot-take/approval.go: the approver at a terminal.
--   Clock              tools/clock/clock.go: the tool that tells the time.
--   Command            cmd/hot-take/main.go: Command/Wiring and Command/ProjectTools have projectTools and
--                      builtInTools, which join the plugins' clients, the tools, the capabilities and the
--                      policy; Command/Demo has runDemo and projectModel, Command/Main runProject and run,
--                      Command/Terminal the approver that projectTools gives to the policy; the settings of
--                      Command/ProjectTools take any approver, of which it is one.
--   Tests              concrete runs, and an instance of every property that has hypotheses.
--
-- How the state corresponds. A dependency (a model, a tool, an authorizer, a sink, a clock) is a function on
-- a world of any type, which holds all that its effects reach, so that the world may answer a call as it
-- likes and differently each time. The state of a run has this world, the runtime's atomic counter
-- `sequence`, and a trace of the calls of dependencies with their results. The program keeps no such trace:
-- no action reads it, it is what the properties speak about. The local variables of `Run` that do not change
-- in its loop are a `Plan`, those that change a `Conversation`. An early return is an error value that
-- carries what the text of the Go error names. A context is asked for its error at the points where the
-- source asks.
--
-- The two clients are functions on a world too, which their HTTP client acts on. The MCP client's counter
-- and its map of tools are a record `State`; the fields that do not change are a record `Client`. A decoded
-- JSON value is a tree of the constructors of `Json`, with the fields of an object in the order of one
-- visit. The clients of a project's plugins have their sessions in a store by the plugin's name, in the
-- `World` of Command. What a decoder of encoding/json makes of a text is a parameter, a function of the text.
--
-- How runs are verified. Agent/Protocol is a specification: a relation between a trace and the phase that a
-- run has reached, with one rule for each call of a dependency. Agent/Hoare has triples over it,
-- Agent/Refinement proves by them that the loop follows it. Agent/Ensures and Agent/Prepare do the same for
-- what is done before the loop.
-- The modules Agent/Budget, Authority, Transcript, Announcements and Endings prove invariants of the
-- protocol by induction on it. Agent/Runs and Agent/Outcomes carry them over to the function `run`.
--
-- Bounds and fuel. A loop over a slice is recursion on the list. The loop over steps counts the rounds that
-- are left, from `max_steps`: no fuel is chosen, the bound is the program's. The counter wraps at 2 ^ 64, and
-- its decimal form needs at most 20 digits, which is the fuel of `decimal`. The loop over the pages of a listing
-- counts down from the program's hundred, and the loop over the lines of a stream is recursion on them.
-- Lengths and scores are not bounded: they are below the size of the memory.
--
-- What stays a parameter: json.Valid and the decoders and encoders of encoding/json, the network, url.Parse,
-- mime.ParseMediaType, base64, strings.ToLower with its Unicode tables, the order in which a Go map is visited,
-- the deadline of a context, the clock, the terminal, path/filepath, package flag, and the file system,
-- which does not change while a project is loaded.
--
-- Not modelled: wrapped error chains and the texts of errors, goroutines beyond the atomic counters and the
-- locks (the one that reads a line for the terminal's approver stays blocked behind a cancelled wait; the approver
-- is stopped then and reads nothing more), the example server (examples, internal/examplemcp), and the function main, which only sets up a
-- signal and reports an error.
pub mod Base
pub mod Tool
pub mod Capability
pub mod Permission
pub mod Skill
pub mod Event
pub mod Provider
pub mod Agent
pub mod Project
pub mod Json
pub mod Mcp
pub mod Http
pub mod Openai
pub mod Approval
pub mod Clock
pub mod Command
pub mod Tests
