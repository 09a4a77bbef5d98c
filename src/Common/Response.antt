-- ===== src/Common/Response.antt =====
-- crates/common/src/models.rs: the envelope of every response.
use payment_gateway_in_rust.Prelude.{String, true, false}
use payment_gateway_in_rust.Common.Values.{Json, null, bool, str, obj, end, field, Text, text_json}

-- What serde writes of `ApiResponse::ok(data, request_id)`.
unfoldable pub api_ok : Json → String → Json
api_ok body request_id = obj (
    field "success" (bool true)
      (field "data" body (field "error" null (field "request_id" (str request_id) end))))

-- What serde writes of `ApiResponse::err(code, message, request_id)`.
unfoldable pub api_err : String → Text → String → Json
api_err code message request_id = obj (
    field "success" (bool false) (
      field "data" null (
        field "error"
          (obj (
            field "code" (str code) (field "message" (text_json message) (field "param" null end))))
          (field "request_id" (str request_id) end))))
